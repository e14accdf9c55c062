-- ===== src/Sessions/Frame.antt =====
-- What the operations on the active session leave alone.
use shells.Prelude.{◌≡◌, refl, ◌∙◌, Option, none, some, nat_eq, Bool-cases, inl, inr}
use shells.JsMap
use shells.JsMap.{JsMap}
use shells.JsMap.Laws.{keys-map_values, keys-modify}
use shells.Sessions.State.{Sid, Session, App, get_session, is_fullscreen}
use shells.Sessions.Active.{
  modify_at, update_sleep_state, flip_tile, toggle_fullscreen, ensure_fullscreen_mobile, activate,
  move_fullscreen, switch, set_active,
}
use shells.Sessions.Sleep.{toggle_cases, ensure_cases}

-- The same sessions in the same order, the same master and the same open dialogs.
pub record SameShape (a b : App) : Type 0 where
  pub keys : JsMap.keys b.sessions ≡ JsMap.keys a.sessions
  pub master : b.master_id ≡ a.master_id
  pub prompts : b.prompts ≡ a.prompts
  pub ready : b.ready ≡ a.ready
  pub mobile : b.mobile ≡ a.mobile
  pub layout : b.layout_mode ≡ a.layout_mode

abbrev pub same_refl : (a : App) → SameShape a a
same_refl a = record {
  keys = refl;
  master = refl;
  prompts = refl;
  ready = refl;
  mobile = refl;
  layout = refl;
}

pub same_trans : (a b c : App) → SameShape a b → SameShape b c → SameShape a c
same_trans a b c p q = record {
  keys = q.keys ∙ p.keys;
  master = q.master ∙ p.master;
  prompts = q.prompts ∙ p.prompts;
  ready = q.ready ∙ p.ready;
  mobile = q.mobile ∙ p.mobile;
  layout = q.layout ∙ p.layout;
}

-- And the same active session.
abbrev pub SameActive : App → App → Type 0
SameActive a b = SameShape a b × (b.active_id ≡ a.active_id)

pub update_sleep_state-same : (a : App) → SameActive a (update_sleep_state a)
unfolding update_sleep_state
update_sleep_state-same a = (
  record {
    keys = keys-map_values _ a.sessions;
    master = refl;
    prompts = refl;
    ready = refl;
    mobile = refl;
    layout = refl;
  },
  refl,
)

pub flip_tile-same : (a : App) (id : Sid) → SameActive a (flip_tile a id)
unfolding flip_tile
flip_tile-same a id = (
  record {
    keys = keys-modify a.sessions id _;
    master = refl;
    prompts = refl;
    ready = refl;
    mobile = refl;
    layout = refl;
  },
  refl,
)

SameActive-trans : (a b c : App) → SameActive a b → SameActive b c → SameActive a c
SameActive-trans a b c p q = (same_trans a b c p.0 q.0, q.1 ∙ p.1)

pub toggle_fullscreen-same : (a : App) (id : Sid) → SameActive a (toggle_fullscreen a id)
toggle_fullscreen-same a id =
    toggle_cases (SameActive a) a id (same_refl a, refl)
      (SameActive-trans a (flip_tile a id) (update_sleep_state (flip_tile a id))
        (flip_tile-same a id) (update_sleep_state-same (flip_tile a id)))

ensure_fullscreen_mobile-same :
    (a : App) (id : Option Sid) → SameActive a (ensure_fullscreen_mobile a id)
ensure_fullscreen_mobile-same a id =
    ensure_cases (SameActive a) a id (same_refl a, refl) (toggle_fullscreen-same a)

keys-modify_at :
    (m : JsMap Sid Session) (id : Option Sid) (f : Session → Session)
    → JsMap.keys (modify_at m id f) ≡ JsMap.keys m
unfolding modify_at
keys-modify_at m none f = refl
keys-modify_at m (some id) f = keys-modify m id f

pub activate-same : (a : App) (id : Option Sid) → SameShape a (activate a id)
unfolding activate
activate-same a id = record {
  keys = keys-modify_at a.sessions id _;
  master = refl;
  prompts = refl;
  ready = refl;
  mobile = refl;
  layout = refl;
}

pub move_fullscreen-same : (a : App) (id : Option Sid) → SameActive a (move_fullscreen a id)
unfolding move_fullscreen
move_fullscreen-same a id = (
  record {
    keys = keys-modify_at _ id _ ∙ keys-map_values _ a.sessions;
    master = refl;
    prompts = refl;
    ready = refl;
    mobile = refl;
    layout = refl;
  },
  refl,
)

activate-active_id : (a : App) (id : Option Sid) → (activate a id).active_id ≡ id
unfolding activate
activate-active_id a id = refl

pub switch-same :
    (a : App) (id : Option Sid) → SameShape a (switch a id) × ((switch a id).active_id ≡ id)
unfolding switch
switch-same a id = elim (Bool-cases (is_fullscreen (get_session a a.active_id))) [
  | inl e ↦
      let m = move_fullscreen-same (activate a id) id in
      rw e (
        same_trans a (activate a id) (move_fullscreen (activate a id) id) (activate-same a id) m.0,
        m.1 ∙ activate-active_id a id,
      )
  | inr e ↦ rw e (activate-same a id, activate-active_id a id)
]

-- `setActive` makes `id` the active session and keeps the rest.
pub set_active-same :
    (a : App) (id : Option Sid) → SameShape a (set_active a id) × ((set_active a id).active_id ≡ id)
unfolding set_active
set_active-same a id =
    let b = switch a id in
    let c = update_sleep_state b in
    let (s, e) = switch-same a id in
    let (t, f) =
      SameActive-trans b c (ensure_fullscreen_mobile c id) (update_sleep_state-same b)
        (ensure_fullscreen_mobile-same c id) in
    (same_trans a b (ensure_fullscreen_mobile c id) s t, f ∙ e)
