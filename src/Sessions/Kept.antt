-- ===== src/Sessions/Kept.antt =====
-- What the arbitration of roles leaves alone.
use shells.Prelude.{
  ℕ, ◌≡◌, refl, ap, ◌∙◌, inl, inr, Bool, true, false, not, ◌||◌, arith, nat_eq, if◌then◌else◌, ◌==◌,
  Bool-cases, Option-cases, filter,
}
use shells.JsMap
use shells.JsMap.{JsMap}
use shells.JsMap.Laws.{keys-modify}
use shells.Sessions.State.{Sid, Size, Msg, App, send}
use shells.Sessions.Roles.{
  is_client, has_term, send_claim, claim_active_if_needed, become_client, store_pty_size, reclaim,
  handle_pty_size,
}
use shells.Sessions.Settled.{IsSettled, modify-IsSettled}
use shells.Sessions.Lifecycle.{take_pending}

-- The same sessions, all still built.
pub record Kept (a b : App) : Type 0 where
  pub keys : JsMap.keys b.sessions ≡ JsMap.keys a.sessions
  pub settled : IsSettled a.sessions → IsSettled b.sessions

Kept-refl : (a b : App) → b.sessions ≡ a.sessions → Kept a b
Kept-refl a b e = record { keys = ap JsMap.keys e; settled = λ h. rw e h }

pub Kept-trans : (a b c : App) → Kept a b → Kept b c → Kept a c
Kept-trans a b c p q = record { keys = q.keys ∙ p.keys; settled = λ h. q.settled (p.settled h) }

pub send-Kept : (a : App) (m : Msg) → Kept a (send a m)
unfolding send
send-Kept a m = Kept-refl a (send a m) (ground arith)

send_claim-Kept : (a : App) (id : Sid) (now : ℕ) (dims : Size) → Kept a (send_claim a id now dims)
unfolding send_claim send
send_claim-Kept a id now dims = Kept-refl a (send_claim a id now dims) (ground arith)

become_client-Kept : (a : App) (id : Sid) → Kept a (become_client a id)
unfolding become_client
become_client-Kept a id = record {
  keys = keys-modify a.sessions id _;
  settled = modify-IsSettled a.sessions id _ (λ s. refl);
}

claim-Kept :
    (a : App) (id : Sid) (now : ℕ) (dims : Size) → Kept a (claim_active_if_needed a id now dims)
unfolding claim_active_if_needed
claim-Kept a id now dims = elim (Bool-cases (not (has_term a id) || is_client a id)) [
  | inl e ↦ rw e (Kept-refl a a refl)
  | inr e ↦
      let b = become_client a id in
      rw e (
        Kept-trans a b (send_claim b id now dims) (become_client-Kept a id)
          (send_claim-Kept b id now dims))
]

reclaim-Kept :
    (a : App) (sid : Sid) (active : Bool) (now : ℕ) (dims : Size)
    → Kept a (reclaim a sid active now dims)
unfolding reclaim
reclaim-Kept a sid active now dims = elim (Bool-cases (JsMap.includes a.pending_claim_sids sid)) [
  | inl e ↦ rw e (pending active)
  | inr e ↦ rw e (Kept-refl a a refl)
]
  where
    b : App
    b = record a { pending_claim_sids = filter (λ j. not (j == sid)) a.pending_claim_sids }

    pending : (c : Bool) → Kept a (if c then b else claim_active_if_needed b sid now dims)
    pending true = Kept-refl a b refl
    pending false =
        Kept-trans a b (claim_active_if_needed b sid now dims) (Kept-refl a b refl)
          (claim-Kept b sid now dims)

store_pty_size-Kept :
    (a : App) (sid : Sid) (size : Size) (active : Bool) → Kept a (store_pty_size a sid size active)
unfolding store_pty_size
store_pty_size-Kept a sid size true = record {
  keys = keys-modify a.sessions sid _;
  settled = modify-IsSettled a.sessions sid _ (λ s. refl);
}
store_pty_size-Kept a sid size false = Kept-refl a _ refl

pub handle_pty_size-Kept :
    (a : App) (sid : Sid) (size : Size) (active : Bool) (now : ℕ) (dims : Size)
    → Kept a (handle_pty_size a sid size active now dims)
unfolding handle_pty_size
handle_pty_size-Kept a sid size active now dims = elim (Bool-cases (has_term a sid)) [
  | inl e ↦
      let b = store_pty_size a sid size active in
      rw e (
        Kept-trans a b (reclaim b sid active now dims) (store_pty_size-Kept a sid size active)
          (reclaim-Kept b sid active now dims))
  | inr e ↦ rw e (record { keys = refl; settled = λ h. h })
]

pub take_pending-Kept :
    (a : App) (id : Sid) (now : ℕ) (dims : Size) → Kept a (take_pending a id now dims)
unfolding take_pending
take_pending-Kept a id now dims = elim (Option-cases (JsMap.get a.pending_pty_size id)) [
  | inl e ↦ rw (e, take_pending) (Kept-refl a a refl)
  | inr (p, e) ↦
      let b = record a { pending_pty_size = JsMap.delete a.pending_pty_size id } in
      rw (e, take_pending)
        (Kept-trans a b (handle_pty_size b id p.size p.is_active now dims) (Kept-refl a b refl)
          (handle_pty_size-Kept b id p.size p.is_active now dims))
]
