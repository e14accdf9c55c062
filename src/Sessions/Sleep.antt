-- ===== src/Sessions/Sleep.antt =====
-- Which sessions sleep, and what the server has been told of it.
use mathlib.Core.Option
use shells.Prelude.{
  ◌≡◌, refl, not, Option, none, some, arith, nat_eq, Bool-cases, inl, inr, ◌||◌, leb,
}
use shells.JsMap
use shells.JsMap.{JsMap}
use shells.JsMap.Laws.{get-map_values}
use shells.Sessions.State.{Sid, Session, App, get_opt, get_session, is_fullscreen, size}
use shells.Sessions.Active.{
  fullscreen_sid, sleeps, sleep_one, update_sleep_state, toggle_fullscreen, toggle_target,
  flip_tile, target, ensure_fullscreen_mobile, switch, set_active,
}

-- A session sleeps exactly where another one, the active one, is in full screen.
abbrev pub IsSleepRight : App → Type 0
IsSleepRight a =
    (sid : Sid) (s : Session)
    → JsMap.get a.sessions sid ≡ some s
    → s.is_asleep ≡ sleeps (fullscreen_sid a) sid

pub sleep_one-is_asleep :
    (fs : Option Sid) (sid : Sid) (s : Session) → (sleep_one fs sid s).0.is_asleep ≡ sleeps fs sid
unfolding sleep_one
sleep_one-is_asleep fs sid s = ground arith

pub sleep_one-fullscreen :
    (fs : Option Sid) (sid : Sid) (s : Session) → (sleep_one fs sid s).0.fullscreen ≡ s.fullscreen
unfolding sleep_one
sleep_one-fullscreen fs sid s = ground arith

pub get_opt-map_values :
    (f : Sid → Session → Session) (m : JsMap Sid Session) (o : Option Sid)
    → ((sid : Sid) (s : Session) → (f sid s).fullscreen ≡ s.fullscreen)
    → is_fullscreen (get_opt (JsMap.map_values f m) o) ≡ is_fullscreen (get_opt m o)
unfolding get_opt
get_opt-map_values f m none h = refl
get_opt-map_values f m (some id) h = rw get-map_values (on (JsMap.get m id))
  where
    on : (o : Option Session) → is_fullscreen (Option.map (f id) o) ≡ is_fullscreen o
    on none = refl
    on (some s) = h id s

-- The loop leaves the full-screen session as it was.
pub fullscreen_sid-update : (a : App) → fullscreen_sid (update_sleep_state a) ≡ fullscreen_sid a
unfolding update_sleep_state
fullscreen_sid-update a = rw (
    get_opt-map_values (λ sid s. (sleep_one (fullscreen_sid a) sid s).0) a.sessions a.active_id
      (λ sid s. sleep_one-fullscreen (fullscreen_sid a) sid s))

pub map-some {ℓ κ} :
    {A : Type ℓ} {B : Type κ} (f : A → B) (o : Option A) (b : B)
    → Option.map f o ≡ some b
    → (a : A) × (o ≡ some a) × (f a ≡ b)
map-some f none b h = cc
map-some f (some a) b h = (a, refl, cc)

-- `updateSleepState` puts every session right, whatever the sessions were before.
pub update_sleep_state-IsSleepRight : (a : App) → IsSleepRight (update_sleep_state a)
unfolding update_sleep_state
update_sleep_state-IsSleepRight a sid s h =
    let fs = fullscreen_sid a in
    let (s', _, e) =
      map-some (λ t. (sleep_one fs sid t).0) (JsMap.get a.sessions sid) s
        (rw get-map_values at h) in
    rw (fullscreen_sid-update a, ← e) (sleep_one-is_asleep fs sid s')

-- What holds after each way through `toggleFullscreen` and `_ensureFullscreenMobile`.
module _ {κ} (P : App → Type κ) where
  pub toggle_cases :
      (a : App) (id : Sid)
      → P a
      → P (update_sleep_state (flip_tile a id))
      → P (toggle_fullscreen a id)
  unfolding toggle_fullscreen
  toggle_cases a id p q = elim (Bool-cases (JsMap.has a.sessions id)) [
    | inl e ↦ rw e q
    | inr e ↦ rw e p
  ]

  toggle_target_cases :
      (a : App) (id : Option Sid)
      → P a
      → ((sid : Sid) → P (toggle_fullscreen a sid))
      → P (toggle_target a id)
  unfolding toggle_target
  toggle_target_cases a none p q = p
  toggle_target_cases a (some sid) p q = q sid

  pub ensure_cases :
      (a : App) (id : Option Sid)
      → P a
      → ((sid : Sid) → P (toggle_fullscreen a sid))
      → P (ensure_fullscreen_mobile a id)
  unfolding ensure_fullscreen_mobile
  ensure_cases a id p q =
      elim (Bool-cases
        (not a.mobile || leb (size a) 1 || is_fullscreen (get_session a (target a id)))) [
          | inl e ↦ rw e p
          | inr e ↦ rw e (toggle_target_cases a (target a id) p q)
        ]

-- `toggleFullscreen` keeps every session right.
pub toggle_fullscreen-IsSleepRight :
    (a : App) (id : Sid) → IsSleepRight a → IsSleepRight (toggle_fullscreen a id)
toggle_fullscreen-IsSleepRight a id h =
    toggle_cases IsSleepRight a id h (update_sleep_state-IsSleepRight (flip_tile a id))

-- After `setActive`, from any state and to any id or none, a session sleeps exactly where another
-- session is both the active one and in full screen.
pub set_active-IsSleepRight : (a : App) (id : Option Sid) → IsSleepRight (set_active a id)
unfolding set_active
set_active-IsSleepRight a id =
    let b = update_sleep_state (switch a id) in
    let h = update_sleep_state-IsSleepRight (switch a id) in
    ensure_cases IsSleepRight b id h (λ sid. toggle_fullscreen-IsSleepRight b sid h)
