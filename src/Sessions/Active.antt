-- ===== src/Sessions/Active.antt =====
-- The active session, full screen and sleep: `setActive`, `_ensureFullscreenMobile`,
-- `toggleFullscreen`, `updateSleepState`, `next`, `previous`, `promoteToMaster`, `setLayout` and
-- `writeActive` of public/js/shell-sessions.js.
use shells.Prelude.{
  ℕ, ◌+◌, ◌-◌, ◌%◌, suc, Bool, true, false, not, ◌||◌, Option, none, some, List, [], ◌∷◌, ◌++◌,
  nat_eq, Str, if◌then◌else◌, length, leb, ◌==◌, opt_eqb, get_elem?,
}
use shells.JsMap
use shells.JsMap.{JsMap}
use shells.Sessions.State.{
  Sid, Session, Msg, pause, resume, input, App, send, save_state, get_opt, get_session,
  is_fullscreen, set_fullscreen, size,
}

-- `fullscreenSessionId`
abbrev pub fullscreen_in : JsMap Sid Session → Option Sid → Option Sid
fullscreen_in m id = if is_fullscreen (get_opt m id) then id else none

abbrev pub fullscreen_sid : App → Option Sid
fullscreen_sid a = fullscreen_in a.sessions a.active_id

-- Whether a session is to sleep: the active one is in full screen, and it is another one.
abbrev pub sleeps : Option Sid → Sid → Bool
sleeps none sid = false
sleeps (some f) sid = not (sid == f)

-- One round of the loop of `updateSleepState`: the session afterwards, and the message.
unfoldable pub sleep_one : Option Sid → Sid → Session → Session × List Msg
sleep_one fs sid s =
    if sleeps fs sid
    then (if s.is_asleep then (s, []) else (record s { is_asleep = true }, pause sid ∷ []))
    else (if s.is_asleep then (record s { is_asleep = false }, resume sid ∷ []) else (s, []))

-- The messages of the loop, in the order of the sessions.
unfoldable pub sleep_msgs : Option Sid → JsMap Sid Session → List Msg
sleep_msgs fs [] = []
sleep_msgs fs ((sid, s) ∷ m) = (sleep_one fs sid s).1 ++ sleep_msgs fs m

unfoldable pub update_sleep_state : App → App
unfolding get_opt sleep_one sleep_msgs JsMap.map_values
update_sleep_state a =
    let fs = fullscreen_sid a in
    record a {
      sessions = JsMap.map_values (λ sid s. (sleep_one fs sid s).0) a.sessions;
      sent = if a.ready then a.sent ++ sleep_msgs fs a.sessions else a.sent;
    }

-- `classList.toggle('fullscreen')` on a tile
unfoldable pub flip_tile : App → Sid → App
unfolding JsMap.modify
flip_tile a id = record a {
  sessions = JsMap.modify a.sessions id (λ s. set_fullscreen (not s.fullscreen) s);
}

unfoldable pub toggle_fullscreen : App → Sid → App
unfolding update_sleep_state flip_tile JsMap.has
toggle_fullscreen a id = if JsMap.has a.sessions id then update_sleep_state (flip_tile a id) else a

-- `id || this.activeId`
abbrev pub target : App → Option Sid → Option Sid
target a none = a.active_id
target a (some id) = some id

unfoldable pub toggle_target : App → Option Sid → App
toggle_target a none = a
toggle_target a (some id) = toggle_fullscreen a id

unfoldable pub ensure_fullscreen_mobile : App → Option Sid → App
unfolding toggle_target toggle_fullscreen get_opt
ensure_fullscreen_mobile a id =
    if not a.mobile || leb (size a) 1 || is_fullscreen (get_session a (target a id))
    then a
    else toggle_target a (target a id)

-- `modify` at an id that may be null.
unfoldable pub modify_at : JsMap Sid Session → Option Sid → (Session → Session) → JsMap Sid Session
modify_at m none f = m
modify_at m (some id) f = JsMap.modify m id f

-- The part of `setActive` from `if (wasFullscreen)` on, up to the animation.
unfoldable pub move_fullscreen : App → Option Sid → App
unfolding modify_at JsMap.map_values JsMap.modify
move_fullscreen a id =
    let cleared = JsMap.map_values (λ _ s. set_fullscreen false s) a.sessions in
    record a { sessions = modify_at cleared id (set_fullscreen true) }

-- The part of `setActive` above it.
unfoldable pub activate : App → Option Sid → App
unfolding modify_at JsMap.modify save_state
activate a id = save_state (record a {
  active_id = id;
  search_sid = if opt_eqb a.search_sid id then a.search_sid else none;
  sessions = modify_at a.sessions id (λ s. record s { bell_latched = false });
})

-- `setActive` up to `updateSleepState`: `wasFullscreen` is read before the change.
unfoldable pub switch : App → Option Sid → App
unfolding activate move_fullscreen get_opt
switch a id =
    if is_fullscreen (get_session a a.active_id)
    then move_fullscreen (activate a id) id
    else activate a id

unfoldable pub set_active : App → Option Sid → App
unfolding switch update_sleep_state ensure_fullscreen_mobile
set_active a id = ensure_fullscreen_mobile (update_sleep_state (switch a id)) id

-- The end of the slide animation that `setActive` starts in full screen: `prev` leaves full screen.
unfoldable pub slide_cleanup : App → Sid → App
unfolding JsMap.modify
slide_cleanup a prev = record a { sessions = JsMap.modify a.sessions prev (set_fullscreen false) }

-- `Array.prototype.indexOf`
unfoldable pub index_of : List Sid → Sid → Option ℕ
index_of [] x = none
index_of (y ∷ ys) x =
    if y == x then some 0 else elim (index_of ys x) [ none ↦ none | some i ↦ some (suc i) ]

unfoldable pub index_of_opt : List Sid → Option Sid → Option ℕ
index_of_opt ids none = none
index_of_opt ids (some x) = index_of ids x

-- `(ids.indexOf(this.activeId) + 1) % ids.length`, where -1 stands for a missing id.
abbrev pub next_index : Option ℕ → ℕ → ℕ
next_index none n = 0 % n
next_index (some i) n = (i + 1) % n

-- `(ids.indexOf(this.activeId) - 1 + ids.length) % ids.length`, for a length above 1.
abbrev pub previous_index : Option ℕ → ℕ → ℕ
previous_index none n = (n - 2) % n
previous_index (some i) n = (i + n - 1) % n

unfoldable pub next : App → App
unfolding set_active index_of_opt index_of
next a =
    let ids = JsMap.keys a.sessions in
    if leb (length ids) 1
    then a
    else set_active a (get_elem? ids (next_index (index_of_opt ids a.active_id) (length ids)))

unfoldable pub previous : App → App
unfolding set_active index_of_opt index_of
previous a =
    let ids = JsMap.keys a.sessions in
    if leb (length ids) 1
    then a
    else set_active a (get_elem? ids (previous_index (index_of_opt ids a.active_id) (length ids)))

unfoldable pub promote_to_master : App → Sid → App
unfolding save_state
promote_to_master a id = save_state (record a { master_id = some id })

unfoldable pub set_layout : App → Str → App
unfolding save_state
set_layout a mode = save_state (record a { layout_mode = mode })

-- The Boolean says that the data was handed to the socket.
unfoldable pub write_active : App → Str → App × Bool
unfolding send
write_active a s = elim a.active_id [ none ↦ (a, false) | some id ↦ (send a (input id s), a.ready) ]
