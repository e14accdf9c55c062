-- ===== src/Sessions/Sync.antt =====
-- `sync`: the local sessions against the server's list.
use shells.Prelude.{
  ℕ, ◌≡◌, refl, sym, inl, inr, true, false, not, ◌&&◌, List, [], ◌∷◌, arith, nat_eq, if◌then◌else◌,
  In, AllDistinct, Bool-cases, subst, ◌↔◌,
}
use shells.JsMap
use shells.JsMap.{JsMap}
use shells.JsMap.Laws.{includes_iff, not_includes, In-get, has-get, delete-AllDistinct}
use shells.Sessions.State.{Sid, Session, Size, App}
use shells.Sessions.Settled.{IsSettled}
use shells.Sessions.Lifecycle.{
  Listed, mount_all, ids, is_settled, drop_missing, prompt_if_empty, sync, destroy,
}
use shells.Sessions.Destroy.{destroy_lem, destroy-IsSettled, In-keys-destroy}
use shells.Sessions.Mounting.{mount_all-MountedAll}

-- One round of the second loop of `sync`.
abbrev drop_one : App → List Sid → Sid → App
drop_one a server id = if not (JsMap.includes server id) && is_settled a id then destroy a id else a

-- The client `b` that is left of `a` when some ids have been gone through.
record Dropped (a b : App) (server rest : List Sid) : Type 0 where
  keys :
      (sid : Sid)
      → In sid (JsMap.keys b.sessions)
        ↔ (In sid (JsMap.keys a.sessions) × (In sid rest → In sid server))
  distinct : AllDistinct (JsMap.keys b.sessions)
  settled : IsSettled b.sessions

module _ (a : App) (server : List Sid) (id : Sid) where
  kept_one :
      (In id (JsMap.keys a.sessions) → In id server)
      → AllDistinct (JsMap.keys a.sessions)
      → IsSettled a.sessions
      → Dropped a a server (id ∷ [])
  kept_one h d k = record {
    keys = λ sid. (
      λ p. (
        p,
        elim [
          | inl q ↦
              subst (λ x. In x server) (sym q) (h (subst (λ x. In x (JsMap.keys a.sessions)) q p))
          | inr q ↦ absurd q
        ],
      ),
      λ p. p.0,
    );
    distinct = d;
    settled = k;
  }

  is_settled_In : IsSettled a.sessions → is_settled a id ≡ false → In id (JsMap.keys a.sessions) → ⊥
  unfolding is_settled
  is_settled_In k h p =
      let (s, g) = In-get a.sessions id p in cc (rw (g, is_settled, k id s g) at h)

  is_settled-has : is_settled a id ≡ true → JsMap.has a.sessions id ≡ true
  unfolding is_settled
  is_settled-has h = ground (arith, has-get a.sessions id)

  drop_one-Dropped :
      AllDistinct (JsMap.keys a.sessions)
      → IsSettled a.sessions
      → Dropped a (drop_one a server id) server (id ∷ [])
  drop_one-Dropped d k = elim (Bool-cases (JsMap.includes server id)) [
    | inl e ↦ rw e (kept_one (λ _. (includes_iff server id).0 e) d k)
    | inr e ↦ elim (Bool-cases (is_settled a id)) [
      | inl f ↦ rw (e, f) (gone e (is_settled-has f))
      | inr f ↦ rw (e, f) (kept_one (λ p. absurd (is_settled_In k f p)) d k)
    ]
  ]
    where
      gone :
          JsMap.includes server id ≡ false
          → JsMap.has a.sessions id ≡ true
          → Dropped a (destroy a id) server (id ∷ [])
      gone e h =
          let ks = λ (sid : Sid). In-keys-destroy a id sid d h in
          record {
            keys = λ sid. (
              λ p. (
                ((ks sid).0 p).0,
                elim [ inl q ↦ absurd (((ks sid).0 p).1 q) | inr q ↦ absurd q ],
              ),
              λ p.
                  (ks sid).1
                    (p.0, λ q. not_includes server id e (subst (λ x. In x server) q (p.1 (inl q)))),
            );
            distinct = rw (destroy_lem a id h).keys (delete-AllDistinct a.sessions id d);
            settled = destroy-IsSettled a id h d k;
          }

drop_missing-Dropped :
    (a : App) (server rest : List Sid)
    → AllDistinct (JsMap.keys a.sessions)
    → IsSettled a.sessions
    → Dropped a (drop_missing a server rest) server rest
unfolding drop_missing
drop_missing-Dropped a server [] d k = record {
  keys = λ sid. (λ p. (p, λ q. absurd q), λ p. p.0);
  distinct = d;
  settled = k;
}
drop_missing-Dropped a server (id ∷ rest) d k =
    let o = drop_one-Dropped a server id d k in
    let r = drop_missing-Dropped (drop_one a server id) server rest o.distinct o.settled in
    record {
      keys = λ sid. (
        λ p.
            let q = (r.keys sid).0 p in
            let t = (o.keys sid).0 q.0 in (t.0, elim [ inl e ↦ t.1 (inl e) | inr e ↦ q.1 e ]),
        λ p. (r.keys sid).1 (
          (o.keys sid).1 (p.0, elim [ inl e ↦ p.1 (inl e) | inr e ↦ absurd e ]),
          λ e. p.1 (inr e),
        ),
      );
      distinct = r.distinct;
      settled = r.settled;
    }

prompt_if_empty-sessions :
    (a : App) (m : JsMap Sid Session) → a.sessions ≡ m → (prompt_if_empty a).sessions ≡ a.sessions
unfolding prompt_if_empty
prompt_if_empty-sessions a [] h = ground arith
prompt_if_empty-sessions a (x ∷ m) h = ground arith

-- After `sync` the client has exactly the sessions of the server's list, no id twice, provided that no
-- id stood twice before and that no session was still being built.
pub In-keys-sync :
    (a : App) (list : List Listed) (now : ℕ) (dims : Size)
    → AllDistinct (JsMap.keys a.sessions)
    → IsSettled a.sessions
    → ((sid : Sid) → In sid (JsMap.keys (sync a list now dims).sessions) ↔ In sid (ids list))
      × AllDistinct (JsMap.keys (sync a list now dims).sessions)
unfolding sync
In-keys-sync a list now dims d k =
    let m = mount_all-MountedAll a list now dims in
    let b = mount_all a list now dims in
    let r =
      drop_missing-Dropped b (ids list) (JsMap.keys b.sessions) (m.distinct d) (m.settled k) in
    let c = drop_missing b (ids list) (JsMap.keys b.sessions) in
    rw (prompt_if_empty-sessions c c.sessions refl) (
      λ sid. (
        λ p. let q = (r.keys sid).0 p in q.1 q.0,
        λ p. (r.keys sid).1 ((m.keys sid).1 (inr p), λ _. p),
      ),
      r.distinct,
    )
