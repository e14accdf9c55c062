-- ===== src/Sessions/Server.antt =====
-- What the server knows of the sleeping sessions, from the messages that it has been sent.
use shells.Prelude.{
  ◌≡◌, refl, sym, ap, ◌∙◌, ◌≢◌, Bool, true, false, Option, none, some, List, [], ◌∷◌, ◌++◌, arith,
  nat_eq, if◌then◌else◌, ◌==◌, In, AllDistinct, Bool-cases, inl, inr, eqb_iff, subst,
}
use shells.JsMap
use shells.JsMap.{JsMap}
use shells.JsMap.Laws.{
  beq_refl, beq_ne, get-map_values, get-modify_self, get-modify_ne, ne_of_beq, get-In,
}
use shells.Sessions.State.{Sid, Session, Msg, pause, resume, App, get_session, is_fullscreen}
use shells.Sessions.Active.{
  sleeps, sleep_one, sleep_msgs, fullscreen_sid, update_sleep_state, flip_tile, toggle_fullscreen,
  activate, move_fullscreen, switch, modify_at, set_active,
}
use shells.Sessions.Frame.{
  update_sleep_state-same, flip_tile-same, activate-same, move_fullscreen-same,
}
use shells.Sessions.Sleep.{sleep_one-is_asleep, map-some, toggle_cases, ensure_cases}

-- The sessions that the server holds paused, as a predicate, before and after a message.
abbrev pub hear : (Sid → Bool) → Msg → Sid → Bool
hear p (pause x) y = if y == x then true else p y
hear p (resume x) y = if y == x then false else p y
hear p _ y = p y

abbrev pub replay : (Sid → Bool) → List Msg → Sid → Bool
replay p [] = p
replay p (m ∷ ms) = replay (hear p m) ms

replay-append : (p : Sid → Bool) (ms ns : List Msg) → replay p (ms ++ ns) ≡ replay (replay p ms) ns
replay-append p [] ns = refl
replay-append p (m ∷ ms) ns = replay-append (hear p m) ms ns

-- The server holds exactly those sessions paused that sleep here.
abbrev pub Agrees : (Sid → Bool) → JsMap Sid Session → Type 0
Agrees p m = (sid : Sid) (s : Session) → JsMap.get m sid ≡ some s → p sid ≡ s.is_asleep

-- One round of the loop puts the server right on its session and leaves the others alone.
hear_one_self :
    (p : Sid → Bool) (fs : Option Sid) (x : Sid) (s : Session)
    → p x ≡ s.is_asleep
    → replay p (sleep_one fs x s).1 x ≡ sleeps fs x
unfolding sleep_one
hear_one_self p fs x s h = ground arith

hear_one_ne :
    (p : Sid → Bool) (fs : Option Sid) (x y : Sid) (s : Session)
    → y ≢ x
    → replay p (sleep_one fs x s).1 y ≡ p y
unfolding sleep_one
hear_one_ne p fs x y s h = ground arith

replay_absent :
    (p : Sid → Bool) (fs : Option Sid) (m : JsMap Sid Session) (y : Sid)
    → (In y (JsMap.keys m) → ⊥)
    → replay p (sleep_msgs fs m) y ≡ p y
unfolding sleep_msgs
replay_absent p fs [] y h = refl
replay_absent p fs ((x, s) ∷ m) y h = rw (replay-append p (sleep_one fs x s).1 (sleep_msgs fs m)) (
    replay_absent (replay p (sleep_one fs x s).1) fs m y (λ q. h (inr q))
    ∙ hear_one_ne p fs x y s (λ e. h (inl e)))

get_tail :
    (x : Sid) (t : Session) (m : JsMap Sid Session) (y : Sid)
    → y ≢ x
    → JsMap.get ((x, t) ∷ m) y ≡ JsMap.get m y
unfolding JsMap.get
get_tail x t m y h = rw (beq_ne x y (λ e. h (sym e)))

Agrees-tail :
    (p q : Sid → Bool) (x : Sid) (t : Session) (m : JsMap Sid Session)
    → (In x (JsMap.keys m) → ⊥)
    → ((y : Sid) → y ≢ x → q y ≡ p y)
    → Agrees p ((x, t) ∷ m)
    → Agrees q m
Agrees-tail p q x t m new same h y s g =
    let ne = λ (e : y ≡ x). new (subst (λ z. In z (JsMap.keys m)) e (get-In m y s g)) in
    same y ne ∙ h y s (get_tail x t m y ne ∙ g)

-- After the messages of the loop the server knows of every session whether it is to sleep.
replay_present :
    (p : Sid → Bool) (fs : Option Sid) (m : JsMap Sid Session) (y : Sid) (s : Session)
    → AllDistinct (JsMap.keys m)
    → Agrees p m
    → JsMap.get m y ≡ some s
    → replay p (sleep_msgs fs m) y ≡ sleeps fs y
unfolding sleep_msgs JsMap.get
replay_present p fs [] y s d h g = cc
replay_present p fs ((x, t) ∷ m) y s (new, d) h g =
    let q = replay p (sleep_one fs x t).1 in
    rw (replay-append p (sleep_one fs x t).1 (sleep_msgs fs m)) (elim (Bool-cases (x == y)) [
      | inl e ↦
          let e' = (eqb_iff x y).0 e in
          replay_absent q fs m y (λ i. new (subst (λ z. In z (JsMap.keys m)) (sym e') i))
          ∙ subst (λ z. q z ≡ sleeps fs z) e' (hear_one_self p fs x t (h x t (rw (beq_refl x))))
      | inr e ↦
          replay_present q fs m y s d
            (Agrees-tail p q x t m new (λ z ne. hear_one_ne p fs x z t ne) h) (rw e at g)
    ])

-- A client that is connected, whose session map is one, and whose server agrees with it on sleep.
pub record InSync (a : App) : Type 0 where
  pub ready : a.ready ≡ true
  pub distinct : AllDistinct (JsMap.keys a.sessions)
  pub agrees : Agrees (replay (λ _. false) a.sent) a.sessions

update_sleep_state-Agrees :
    (a : App)
    → InSync a
    → Agrees (replay (λ _. false) (update_sleep_state a).sent) (update_sleep_state a).sessions
unfolding update_sleep_state
update_sleep_state-Agrees a h sid s g =
    let p = replay (λ _. false) a.sent in
    let fs = fullscreen_sid a in
    let (s', g', e) =
      map-some (λ t. (sleep_one fs sid t).0) (JsMap.get a.sessions sid) s
        (rw get-map_values at g) in
    rw (h.ready, replay-append (λ _. false) a.sent (sleep_msgs fs a.sessions))
      (replay_present p fs a.sessions sid s' h.distinct h.agrees g'
        ∙ sym (sleep_one-is_asleep fs sid s')
        ∙ ap (λ t. t.is_asleep) e)

update_sleep_state-InSync : (a : App) → InSync a → InSync (update_sleep_state a)
update_sleep_state-InSync a h = record {
  ready = (update_sleep_state-same a).0.ready ∙ h.ready;
  distinct = subst AllDistinct (sym (update_sleep_state-same a).0.keys) h.distinct;
  agrees = update_sleep_state-Agrees a h;
}

-- A change of the sessions that leaves sleep alone.
module _ (p : Sid → Bool) (m : JsMap Sid Session) (h : Agrees p m) where
  Agrees-map_values :
      (f : Sid → Session → Session)
      → ((sid : Sid) (s : Session) → (f sid s).is_asleep ≡ s.is_asleep)
      → Agrees p (JsMap.map_values f m)
  Agrees-map_values f k sid s g =
      let (s', g', e) = map-some (f sid) (JsMap.get m sid) s (rw get-map_values at g) in
      h sid s' g' ∙ sym (k sid s') ∙ ap (λ t. t.is_asleep) e

  Agrees-modify :
      (id : Sid) (f : Session → Session)
      → ((s : Session) → (f s).is_asleep ≡ s.is_asleep)
      → Agrees p (JsMap.modify m id f)
  Agrees-modify id f k sid s g = elim (Bool-cases (id == sid)) [
    | inl e ↦
        let e' = (eqb_iff id sid).0 e in
        let g' = subst (λ t. JsMap.get (JsMap.modify m id f) t ≡ some s) (sym e') g in
        let (s', g'', e'') = map-some f (JsMap.get m id) s (rw get-modify_self at g') in
        subst (λ t. p t ≡ s.is_asleep) e' (h id s' g'' ∙ sym (k s') ∙ ap (λ t. t.is_asleep) e'')
    | inr e ↦ h sid s (sym (get-modify_ne m id sid f (ne_of_beq id sid e)) ∙ g)
  ]

  Agrees-modify_at :
      (id : Option Sid) (f : Session → Session)
      → ((s : Session) → (f s).is_asleep ≡ s.is_asleep)
      → Agrees p (modify_at m id f)
  unfolding modify_at
  Agrees-modify_at none f k = h
  Agrees-modify_at (some id) f k = Agrees-modify id f k

flip_tile-InSync : (a : App) (id : Sid) → InSync a → InSync (flip_tile a id)
unfolding flip_tile
flip_tile-InSync a id h = record {
  ready = h.ready;
  distinct = subst AllDistinct (sym (flip_tile-same a id).0.keys) h.distinct;
  agrees = Agrees-modify _ a.sessions h.agrees id _ (λ s. refl);
}

activate-InSync : (a : App) (id : Option Sid) → InSync a → InSync (activate a id)
unfolding activate
activate-InSync a id h = record {
  ready = h.ready;
  distinct = subst AllDistinct (sym (activate-same a id).keys) h.distinct;
  agrees = Agrees-modify_at _ a.sessions h.agrees id _ (λ s. refl);
}

move_fullscreen-InSync : (a : App) (id : Option Sid) → InSync a → InSync (move_fullscreen a id)
unfolding move_fullscreen
move_fullscreen-InSync a id h = record {
  ready = h.ready;
  distinct = subst AllDistinct (sym (move_fullscreen-same a id).0.keys) h.distinct;
  agrees =
      Agrees-modify_at _ _ (Agrees-map_values _ a.sessions h.agrees _ (λ sid s. refl)) id _
        (λ s. refl);
}

switch-InSync : (a : App) (id : Option Sid) → InSync a → InSync (switch a id)
unfolding switch
switch-InSync a id h = elim (Bool-cases (is_fullscreen (get_session a a.active_id))) [
  | inl e ↦ rw e (move_fullscreen-InSync (activate a id) id (activate-InSync a id h))
  | inr e ↦ rw e (activate-InSync a id h)
]

pub toggle_fullscreen-InSync : (a : App) (id : Sid) → InSync a → InSync (toggle_fullscreen a id)
toggle_fullscreen-InSync a id h =
    toggle_cases InSync a id h
      (update_sleep_state-InSync (flip_tile a id) (flip_tile-InSync a id h))

-- `setActive` keeps the server in step, if it was: while the client is connected and no id stands twice,
-- the sessions that the `pause` and `resume` messages leave paused are the ones that sleep here.
pub set_active-InSync : (a : App) (id : Option Sid) → InSync a → InSync (set_active a id)
unfolding set_active
set_active-InSync a id h =
    let b = update_sleep_state (switch a id) in
    let k = update_sleep_state-InSync (switch a id) (switch-InSync a id h) in
    ensure_cases InSync b id k (λ sid. toggle_fullscreen-InSync b sid k)
