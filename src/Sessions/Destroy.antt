-- ===== src/Sessions/Destroy.antt =====
-- What `destroy` does to the client, and the invariant of the session core.
use shells.Prelude.{
  suc, ◌≡◌, refl, sym, ap, ◌∙◌, ◌≢◌, inl, inr, Bool, true, false, Option, none, some, List, [], ◌∷◌,
  arith, nat_eq, if◌then◌else◌, ◌==◌, opt_eqb, In, AllDistinct, Bool-cases, get_last?, subst,
  eqb_iff, ◌↔◌,
}
use shells.JsMap
use shells.JsMap.{JsMap}
use shells.JsMap.Laws.{
  delete-AllDistinct, In-keys-delete, In-delete_ne, not_In-delete, get-delete_ne, get-In, ne_of_beq,
}
use shells.Sessions.State.{Sid, Session, detach, App, send, save_state}
use shells.Sessions.Frame.{SameShape, same_refl, set_active-same}
use shells.Sessions.Settled.{IsSettled, set_active-IsSettled}
use shells.Sessions.Lifecycle.{
  forget, last_sid, reassign_master, reassign_active, prompt_if_empty, destroy,
}

-- The map is one, and the active and the master session are among its keys.
pub record IsWellFormed (a : App) : Type 0 where
  pub distinct : AllDistinct (JsMap.keys a.sessions)
  pub active : (id : Sid) → a.active_id ≡ some id → In id (JsMap.keys a.sessions)
  pub master : (id : Sid) → a.master_id ≡ some id → In id (JsMap.keys a.sessions)

In-get_last? : (xs : List Sid) (x : Sid) → get_last? xs ≡ some x → In x xs
In-get_last? [] x h = cc
In-get_last? (y ∷ []) x h = inl (cc)
In-get_last? (y ∷ (z ∷ zs)) x h = inr (In-get_last? (z ∷ zs) x h)

abbrev pub is_empty : List Sid → Bool
is_empty [] = true
is_empty (_ ∷ _) = false

-- The client `b` that a `destroy` of the session `id` makes of the client `a`.
pub record Destroyed (a b : App) (id : Sid) : Type 0 where
  pub keys : JsMap.keys b.sessions ≡ JsMap.keys (JsMap.delete a.sessions id)
  pub master :
      b.master_id
      ≡ (if opt_eqb a.master_id (some id) then get_last? (JsMap.keys b.sessions) else a.master_id)
  pub active :
      b.active_id
      ≡ (if opt_eqb a.active_id (some id) then get_last? (JsMap.keys b.sessions) else a.active_id)
  pub prompts : b.prompts ≡ (if is_empty (JsMap.keys b.sessions) then suc a.prompts else a.prompts)
  pub order : b.saved.session_order ≡ JsMap.keys b.sessions

-- After the first half of `destroy`, up to the change of the active session.
abbrev halfway : App → Sid → App
halfway a id = reassign_master (forget (send a (detach id)) id) id

halfway-sessions : (a : App) (id : Sid) → (halfway a id).sessions ≡ JsMap.delete a.sessions id
unfolding send forget reassign_master
halfway-sessions a id = ground arith

halfway-rest :
    (a : App) (id : Sid)
    → ((halfway a id).active_id ≡ a.active_id)
      × ((halfway a id).prompts ≡ a.prompts)
      × ((halfway a id).master_id ≡ (
          if opt_eqb a.master_id (some id)
          then get_last? (JsMap.keys (JsMap.delete a.sessions id))
          else a.master_id))
unfolding send forget reassign_master
halfway-rest a id = ground arith

reassign_active-same :
    (a : App) (id : Sid)
    → SameShape a (reassign_active a id)
      × ((reassign_active a id).active_id
          ≡ (if opt_eqb a.active_id (some id) then last_sid a else a.active_id))
unfolding reassign_active
reassign_active-same a id = elim (Bool-cases (opt_eqb a.active_id (some id))) [
  | inl e ↦ rw e (set_active-same a (last_sid a))
  | inr e ↦ rw e (same_refl a, refl)
]

reassign_active-IsSettled :
    (a : App) (id : Sid) → IsSettled a.sessions → IsSettled (reassign_active a id).sessions
unfolding reassign_active
reassign_active-IsSettled a id h = elim (Bool-cases (opt_eqb a.active_id (some id))) [
  | inl e ↦ rw e (set_active-IsSettled a (last_sid a) h)
  | inr e ↦ rw e h
]

-- `saveState` and the prompt leave the sessions, the active and the master one alone.
abbrev finish : App → App
finish a = prompt_if_empty (save_state a)

pub finish_lem :
    (a : App) (m : JsMap Sid Session)
    → a.sessions ≡ m
    → ((finish a).sessions ≡ a.sessions)
      × ((finish a).active_id ≡ a.active_id)
      × ((finish a).master_id ≡ a.master_id)
      × ((finish a).prompts
          ≡ (if is_empty (JsMap.keys a.sessions) then suc a.prompts else a.prompts))
      × ((finish a).saved.session_order ≡ JsMap.keys a.sessions)
unfolding prompt_if_empty save_state
finish_lem a [] h = ground arith
finish_lem a ((id, s) ∷ m) h = ground arith

destroy_eq :
    (a : App) (id : Sid)
    → JsMap.has a.sessions id ≡ true
    → destroy a id ≡ finish (reassign_active (halfway a id) id)
unfolding destroy
destroy_eq a id h = rw h

-- Who has a role after the session `id` has lost it, from equal roles and equal lists of sessions.
pass :
    (id : Sid) {role role' : Option Sid} {ks ks' : List Sid}
    → role ≡ role'
    → ks ≡ ks'
    → (if opt_eqb role (some id) then get_last? ks else role)
      ≡ (if opt_eqb role' (some id) then get_last? ks' else role')
pass id p q = λ i. if opt_eqb (p i) (some id) then get_last? (q i) else p i

pub destroy_absent : (a : App) (id : Sid) → JsMap.has a.sessions id ≡ false → destroy a id ≡ a
unfolding destroy
destroy_absent a id h = rw h

-- `destroy` of a session of the map removes it and keeps the others in their order, passes the roles of
-- master and active session that it had on to the last of the others, saves the new order, and asks
-- for a new shell when none is left.
pub destroy_lem :
    (a : App) (id : Sid) → JsMap.has a.sessions id ≡ true → Destroyed a (destroy a id) id
destroy_lem a id h =
    let b = halfway a id in
    let c = reassign_active b id in
    let (active_b, prompts_b, master_b) = halfway-rest a id in
    let (same, active_c) = reassign_active-same b id in
    let (sessions_d, active_d, master_d, prompts_d, order_d) = finish_lem c c.sessions refl in
    let keys_b = ap JsMap.keys (halfway-sessions a id) in
    let keys_c = same.keys ∙ keys_b in
    let keys_d = ap JsMap.keys sessions_d ∙ keys_c in
    rw (destroy_eq a id h) (record {
      keys = keys_d;
      master = rw keys_d (master_d ∙ same.master ∙ master_b);
      active = rw keys_d (active_d ∙ active_c ∙ (pass id active_b keys_b));
      prompts = rw (keys_d, ← keys_c) (prompts_d ∙ (rw (same.prompts, prompts_b)));
      order = rw keys_d (order_d ∙ keys_c);
    })

pub destroy-IsSettled :
    (a : App) (id : Sid)
    → JsMap.has a.sessions id ≡ true
    → AllDistinct (JsMap.keys a.sessions)
    → IsSettled a.sessions
    → IsSettled (destroy a id).sessions
destroy-IsSettled a id h d k =
    let b = halfway a id in
    let c = reassign_active b id in
    rw (destroy_eq a id h, (finish_lem c c.sessions refl).0)
      (reassign_active-IsSettled b id (rw (halfway-sessions a id) gone))
  where
    gone : IsSettled (JsMap.delete a.sessions id)
    gone sid s g = elim (Bool-cases (id == sid)) [
      | inl e ↦ absurd (
          not_In-delete a.sessions id d (
            subst (λ t. In t (JsMap.keys (JsMap.delete a.sessions id))) (sym ((eqb_iff id sid).0 e))
              (get-In (JsMap.delete a.sessions id) sid s g)))
      | inr e ↦ k sid s (sym (get-delete_ne a.sessions id sid (ne_of_beq id sid e)) ∙ g)
    ]

-- A role that passes from a session to the last one of the others stays within the sessions.
role_within :
    (m : JsMap Sid Session) (id : Sid) (role : Option Sid)
    → ((x : Sid) → role ≡ some x → In x (JsMap.keys m))
    → (x : Sid)
    → (if opt_eqb role (some id) then get_last? (JsMap.keys (JsMap.delete m id)) else role) ≡ some x
    → In x (JsMap.keys (JsMap.delete m id))
role_within m id none h x e = cc
role_within m id (some y) h x e = elim (Bool-cases (y == id)) [
  | inl p ↦ In-get_last? (JsMap.keys (JsMap.delete m id)) x (rw p at e)
  | inr p ↦
      let same : some y ≡ some x = rw p at e in
      In-delete_ne m id x (λ q. ne_of_beq y id p (cc)) (h x same)
]

-- `destroy` of any id keeps the client well-formed, if it was: no id stands twice, and the active and
-- the master session are sessions of the map.
pub destroy-IsWellFormed : (a : App) (id : Sid) → IsWellFormed a → IsWellFormed (destroy a id)
destroy-IsWellFormed a id w = elim (Bool-cases (JsMap.has a.sessions id)) [
  | inl h ↦ kept (destroy_lem a id h)
  | inr h ↦ rw (destroy_absent a id h) w
]
  where
    kept : Destroyed a (destroy a id) id → IsWellFormed (destroy a id)
    kept d = record {
      distinct = rw d.keys (delete-AllDistinct a.sessions id w.distinct);
      active = λ x e.
          rw d.keys (role_within a.sessions id a.active_id w.active x (rw (d.active, d.keys) at e));
      master = λ x e.
          rw d.keys (role_within a.sessions id a.master_id w.master x (rw (d.master, d.keys) at e));
    }

-- After `destroy` of a session of the map, exactly the other sessions are there.
pub In-keys-destroy :
    (a : App) (id sid : Sid)
    → AllDistinct (JsMap.keys a.sessions)
    → JsMap.has a.sessions id ≡ true
    → In sid (JsMap.keys (destroy a id).sessions) ↔ (In sid (JsMap.keys a.sessions) × (sid ≢ id))
In-keys-destroy a id sid d h =
    let e = (destroy_lem a id h).keys in
    rw e (
      λ p. (
        In-keys-delete a.sessions id sid p,
        λ q.
            not_In-delete a.sessions id d
              (subst (λ t. In t (JsMap.keys (JsMap.delete a.sessions id))) q p),
      ),
      λ p. In-delete_ne a.sessions id sid (λ q. p.1 (sym q)) p.0,
    )
