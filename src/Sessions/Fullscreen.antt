-- ===== src/Sessions/Fullscreen.antt =====
-- Which tile is in full screen after `setActive`.
use mathlib.Core.Option
use shells.Prelude.{
  ◌<◌, ◌≡◌, refl, sym, ap, ◌∙◌, true, false, not, Option, none, some, [], ◌∷◌, arith, suc, nat_eq,
  Bool-cases, length, is_some, inl, inr, subst, In, ◌==◌,
}
use shells.JsMap
use shells.JsMap.{JsMap}
use shells.JsMap.Laws.{get-modify_self, has-get, has_iff, keys-map_values}
use shells.Sessions.State.{
  Sid, Session, App, get_opt, get_session, is_fullscreen, set_fullscreen, size,
}
use shells.Sessions.Active.{
  sleeps, sleep_one, fullscreen_sid, update_sleep_state, flip_tile, toggle_fullscreen,
  toggle_target, ensure_fullscreen_mobile, modify_at, activate, move_fullscreen, switch, set_active,
}
use shells.Sessions.Sleep.{set_active-IsSleepRight, get_opt-map_values, sleep_one-fullscreen}
use shells.Sessions.Frame.{
  SameShape, switch-same, activate-same, update_sleep_state-same, same_trans, set_active-same,
}

-- The tile of `id` is in full screen.
abbrev pub InFullscreen : App → Sid → Type 0
InFullscreen a id = is_fullscreen (JsMap.get a.sessions id) ≡ true

pub has_keys :
    (m n : JsMap Sid Session) (id : Sid)
    → JsMap.keys n ≡ JsMap.keys m
    → JsMap.has m id ≡ true
    → JsMap.has n id ≡ true
has_keys m n id e h = (has_iff n id).1 (subst (In id) (sym e) ((has_iff m id).0 h))

fullscreen_set :
    (o : Option Session)
    → is_some o ≡ true
    → is_fullscreen (Option.map (set_fullscreen true) o) ≡ true
fullscreen_set none h = cc
fullscreen_set (some s) h = refl

move_fullscreen-InFullscreen :
    (a : App) (id : Sid)
    → JsMap.has a.sessions id ≡ true
    → InFullscreen (move_fullscreen a (some id)) id
unfolding move_fullscreen modify_at
move_fullscreen-InFullscreen a id h =
    let cleared = JsMap.map_values (λ _ s. set_fullscreen false s) a.sessions in
    rw (get-modify_self cleared id) (
      fullscreen_set (JsMap.get cleared id) (
        sym (has-get cleared id) ∙ has_keys a.sessions cleared id (keys-map_values _ a.sessions) h))

update-InFullscreen :
    (a : App) (id : Sid) → InFullscreen a id → InFullscreen (update_sleep_state a) id
unfolding update_sleep_state get_opt
update-InFullscreen a id h =
    get_opt-map_values (λ sid s. (sleep_one (fullscreen_sid a) sid s).0) a.sessions (some id)
      (λ sid s. sleep_one-fullscreen (fullscreen_sid a) sid s)
    ∙ h

ensure-InFullscreen :
    (a : App) (id : Sid) → InFullscreen a id → ensure_fullscreen_mobile a (some id) ≡ a
unfolding ensure_fullscreen_mobile get_opt
ensure-InFullscreen a id h = ground arith

-- In full screen, `setActive` takes the session that it activates into full screen.
pub set_active-InFullscreen :
    (a : App) (id : Sid)
    → is_fullscreen (get_session a a.active_id) ≡ true
    → JsMap.has a.sessions id ≡ true
    → InFullscreen (set_active a (some id)) id
unfolding set_active switch
set_active-InFullscreen a id f h =
    let b = move_fullscreen (activate a (some id)) (some id) in
    let k = update-InFullscreen b id (
      move_fullscreen-InFullscreen (activate a (some id)) id (
        has_keys a.sessions (activate a (some id)).sessions id (activate-same a (some id)).keys
          h)) in
    rw (f, ensure-InFullscreen (update_sleep_state b) id k) k

flip_set :
    (o : Option Session)
    → is_some o ≡ true
    → is_fullscreen o ≡ false
    → is_fullscreen (Option.map (λ s. set_fullscreen (not s.fullscreen) s) o) ≡ true
flip_set none h f = cc
flip_set (some s) h f = rw f

flip_tile-InFullscreen :
    (a : App) (id : Sid)
    → JsMap.has a.sessions id ≡ true
    → is_fullscreen (JsMap.get a.sessions id) ≡ false
    → InFullscreen (flip_tile a id) id
unfolding flip_tile
flip_tile-InFullscreen a id h f =
    rw (get-modify_self a.sessions id)
      (flip_set (JsMap.get a.sessions id) (sym (has-get a.sessions id) ∙ h) f)

length-keys : (m : JsMap Sid Session) → length m ≡ length (JsMap.keys m)
length-keys [] = refl
length-keys ((j, s) ∷ m) = ap suc (length-keys m)

ensure-enters :
    (a : App) (id : Sid)
    → a.mobile ≡ true
    → 1 < size a
    → JsMap.has a.sessions id ≡ true
    → is_fullscreen (JsMap.get a.sessions id) ≡ false
    → ensure_fullscreen_mobile a (some id) ≡ update_sleep_state (flip_tile a id)
unfolding ensure_fullscreen_mobile get_opt toggle_target toggle_fullscreen
ensure-enters a id m n h f = ground arith

-- On a mobile device with more than one session, `setActive` leaves the session that it activates in
-- full screen.
pub set_active_mobile :
    (a : App) (id : Sid)
    → a.mobile ≡ true
    → 1 < size a
    → JsMap.has a.sessions id ≡ true
    → InFullscreen (set_active a (some id)) id
unfolding set_active
set_active_mobile a id m n h = elim (Bool-cases (is_fullscreen (JsMap.get b.sessions id))) [
  | inl f ↦ rw (ensure-InFullscreen b id f) f
  | inr f ↦
      rw (ensure-enters b id (keep.mobile ∙ m) wide here f)
        (update-InFullscreen (flip_tile b id) id (flip_tile-InFullscreen b id here f))
]
  where
    b : App
    b = update_sleep_state (switch a (some id))

    keep : SameShape a b
    keep =
        same_trans a (switch a (some id)) b (switch-same a (some id)).0
          (update_sleep_state-same (switch a (some id))).0

    here : JsMap.has b.sessions id ≡ true
    here = has_keys a.sessions b.sessions id keep.keys h

    wide : 1 < size b
    wide = omega (arith, length-keys a.sessions, length-keys b.sessions, ap length keep.keys)

-- On a mobile device with more than one session, once `setActive` has activated one of them, every
-- session but that one sleeps and that one is awake.
pub set_active_mobile_sleep :
    (a : App) (id : Sid)
    → a.mobile ≡ true
    → 1 < size a
    → JsMap.has a.sessions id ≡ true
    → (sid : Sid) (s : Session) → JsMap.get (set_active a (some id)).sessions sid ≡ some s
    → s.is_asleep ≡ not (sid == id)
unfolding get_opt
set_active_mobile_sleep a id m n h sid s g =
    set_active-IsSleepRight a (some id) sid s g ∙ ap (λ o. sleeps o sid) on
  where
    on : fullscreen_sid (set_active a (some id)) ≡ some id
    on = rw ((set_active-same a (some id)).1) (rw (set_active_mobile a id m n h))
