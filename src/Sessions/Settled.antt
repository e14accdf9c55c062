-- ===== src/Sessions/Settled.antt =====
-- A property of the sessions that full screen, sleep and the bell marker leave alone, such as being
-- built to the end, is kept by the operations on the active session.
use shells.Prelude.{
  ◌≡◌, refl, sym, ◌∙◌, ap, subst, false, Option, none, some, nat_eq, Bool-cases, inl, inr, ◌==◌,
  eqb_iff, arith,
}
use shells.JsMap
use shells.JsMap.{JsMap}
use shells.JsMap.Laws.{get-map_values, get-modify_self, get-modify_ne, ne_of_beq}
use shells.Sessions.State.{Sid, Session, App, get_session, is_fullscreen}
use shells.Sessions.Active.{
  sleep_one, fullscreen_sid, modify_at, update_sleep_state, flip_tile, activate, move_fullscreen,
  switch, set_active,
}
use shells.Sessions.Sleep.{map-some, toggle_cases, ensure_cases}

-- Every session of the map has been built.
abbrev pub IsSettled : JsMap Sid Session → Type 0
IsSettled m = (sid : Sid) (s : Session) → JsMap.get m sid ≡ some s → s.mounting ≡ false

map_values-IsSettled :
    (m : JsMap Sid Session) (f : Sid → Session → Session)
    → ((sid : Sid) (s : Session) → (f sid s).mounting ≡ s.mounting)
    → IsSettled m
    → IsSettled (JsMap.map_values f m)
map_values-IsSettled m f k h sid s g =
    let (s', g', e) = map-some (f sid) (JsMap.get m sid) s (rw get-map_values at g) in
    sym (ap (λ t. t.mounting) e) ∙ k sid s' ∙ h sid s' g'

pub modify-IsSettled :
    (m : JsMap Sid Session) (id : Sid) (f : Session → Session)
    → ((s : Session) → (f s).mounting ≡ s.mounting)
    → IsSettled m
    → IsSettled (JsMap.modify m id f)
modify-IsSettled m id f k h sid s g = elim (Bool-cases (id == sid)) [
  | inl e ↦
      let g' =
        subst (λ t. JsMap.get (JsMap.modify m id f) t ≡ some s) (sym ((eqb_iff id sid).0 e)) g in
      let (s', g'', e') = map-some f (JsMap.get m id) s (rw get-modify_self at g') in
      sym (ap (λ t. t.mounting) e') ∙ k s' ∙ h id s' g''
  | inr e ↦ h sid s (sym (get-modify_ne m id sid f (ne_of_beq id sid e)) ∙ g)
]

modify_at-IsSettled :
    (m : JsMap Sid Session) (id : Option Sid) (f : Session → Session)
    → ((s : Session) → (f s).mounting ≡ s.mounting)
    → IsSettled m
    → IsSettled (modify_at m id f)
unfolding modify_at
modify_at-IsSettled m none f k h = h
modify_at-IsSettled m (some id) f k h = modify-IsSettled m id f k h

abbrev AppSettled : App → Type 0
AppSettled a = IsSettled a.sessions

sleep_one-mounting :
    (fs : Option Sid) (sid : Sid) (s : Session) → (sleep_one fs sid s).0.mounting ≡ s.mounting
unfolding sleep_one
sleep_one-mounting fs sid s = ground arith

update_sleep_state-AppSettled : (a : App) → AppSettled a → AppSettled (update_sleep_state a)
unfolding update_sleep_state
update_sleep_state-AppSettled a =
    map_values-IsSettled a.sessions _ (λ sid s. sleep_one-mounting (fullscreen_sid a) sid s)

flip_tile-AppSettled : (a : App) (id : Sid) → AppSettled a → AppSettled (flip_tile a id)
unfolding flip_tile
flip_tile-AppSettled a id = modify-IsSettled a.sessions id _ (λ s. refl)

activate-AppSettled : (a : App) (id : Option Sid) → AppSettled a → AppSettled (activate a id)
unfolding activate
activate-AppSettled a id = modify_at-IsSettled a.sessions id _ (λ s. refl)

move_fullscreen-AppSettled :
    (a : App) (id : Option Sid) → AppSettled a → AppSettled (move_fullscreen a id)
unfolding move_fullscreen
move_fullscreen-AppSettled a id h =
    modify_at-IsSettled _ id _ (λ s. refl) (map_values-IsSettled a.sessions _ (λ sid s. refl) h)

switch-AppSettled : (a : App) (id : Option Sid) → AppSettled a → AppSettled (switch a id)
unfolding switch
switch-AppSettled a id h = elim (Bool-cases (is_fullscreen (get_session a a.active_id))) [
  | inl e ↦ rw e (move_fullscreen-AppSettled (activate a id) id (activate-AppSettled a id h))
  | inr e ↦ rw e (activate-AppSettled a id h)
]

pub set_active-IsSettled :
    (a : App) (id : Option Sid) → IsSettled a.sessions → IsSettled (set_active a id).sessions
unfolding set_active
set_active-IsSettled a id h =
    let b = update_sleep_state (switch a id) in
    let k = update_sleep_state-AppSettled (switch a id) (switch-AppSettled a id h) in
    ensure_cases AppSettled b id k (λ sid.
      toggle_cases AppSettled b sid k
        (update_sleep_state-AppSettled (flip_tile b sid) (flip_tile-AppSettled b sid k)))
