-- ===== src/Sessions/Mounting.antt =====
-- `mount`, and the first loop of `sync`.
use shells.Prelude.{
  ℕ, ◌≡◌, sym, ap, ◌∙◌, ◌⊎◌, inl, inr, false, Option, some, List, [], ◌∷◌, Str, nat_eq, ◌==◌, In,
  In-snoc, AllDistinct, AllDistinct-snoc, Bool-cases, subst, eqb_iff, ◌↔◌,
}
use shells.JsMap
use shells.JsMap.{JsMap}
use shells.JsMap.Laws.{keys-set_new, get-set_self, get-set_ne, ne_of_beq, has_iff}
use shells.Sessions.State.{Sid, Session, Size, attach, App, send}
use shells.Sessions.Settled.{IsSettled}
use shells.Sessions.Lifecycle.{mounted, take_pending, mount, Listed, mount_all, ids}
use shells.Sessions.Kept.{Kept, Kept-trans, send-Kept, take_pending-Kept}

set-mounted-IsSettled :
    (m : JsMap Sid Session) (id : Sid) (t : Option Str)
    → IsSettled m
    → IsSettled (JsMap.set m id (mounted t))
set-mounted-IsSettled m id t h sid s g = elim (Bool-cases (id == sid)) [
  | inl e ↦
      let g' =
        subst (λ x. JsMap.get (JsMap.set m id (mounted t)) x ≡ some s) (sym ((eqb_iff id sid).0 e))
          g in
      ap (λ x. x.mounting) (sym (some_inj (sym (get-set_self m id (mounted t)) ∙ g')))
  | inr e ↦ h sid s (sym (get-set_ne m id sid (mounted t) (ne_of_beq id sid e)) ∙ g)
]
  where
    some_inj : {u v : Session} → some u ≡ some v → u ≡ v
    some_inj p = cc

-- What `mount` makes of the client: the new session stands last, and those there stay.
pub record Mounted (a b : App) (id : Sid) : Type 0 where
  pub keys :
      (sid : Sid) → In sid (JsMap.keys b.sessions) ↔ (In sid (JsMap.keys a.sessions) ⊎ (sid ≡ id))
  pub distinct : AllDistinct (JsMap.keys a.sessions) → AllDistinct (JsMap.keys b.sessions)
  pub settled : IsSettled a.sessions → IsSettled b.sessions

pub mount-Mounted :
    (a : App) (id : Sid) (t : Option Str) (now : ℕ) (dims : Size)
    → Mounted a (mount a id t now dims) id
unfolding mount
mount-Mounted a id t now dims = elim (Bool-cases (JsMap.has a.sessions id)) [
  | inl e ↦ rw e (present ((has_iff a.sessions id).0 e))
  | inr e ↦ rw e (added e)
]
  where
    present : In id (JsMap.keys a.sessions) → Mounted a a id
    present p = record {
      keys = λ sid.
          (inl, elim [ inl q ↦ q | inr q ↦ subst (λ x. In x (JsMap.keys a.sessions)) (sym q) p ]);
      distinct = λ d. d;
      settled = λ h. h;
    }

    b : App
    b = record a { sessions = JsMap.set a.sessions id (mounted t) }

    c : App
    c = send (take_pending b id now dims) (attach id false)

    kept : Kept b c
    kept =
        Kept-trans b (take_pending b id now dims) c (take_pending-Kept b id now dims)
          (send-Kept (take_pending b id now dims) (attach id false))

    added : JsMap.has a.sessions id ≡ false → Mounted a c id
    added e =
        let ks = kept.keys ∙ keys-set_new a.sessions id (mounted t) e in
        record {
          keys = λ sid. rw ks (In-snoc (JsMap.keys a.sessions) id sid);
          distinct = λ d. rw ks (
              AllDistinct-snoc (JsMap.keys a.sessions) id (λ p. cc (e, (has_iff a.sessions id).1 p))
                d);
          settled = λ h. kept.settled (set-mounted-IsSettled a.sessions id t h);
        }

-- All sessions of the server's list are there after the first loop of `sync`, and those before it.
pub record MountedAll (a b : App) (list : List Listed) : Type 0 where
  pub keys :
      (sid : Sid)
      → In sid (JsMap.keys b.sessions) ↔ (In sid (JsMap.keys a.sessions) ⊎ In sid (ids list))
  pub distinct : AllDistinct (JsMap.keys a.sessions) → AllDistinct (JsMap.keys b.sessions)
  pub settled : IsSettled a.sessions → IsSettled b.sessions

pub mount_all-MountedAll :
    (a : App) (list : List Listed) (now : ℕ) (dims : Size)
    → MountedAll a (mount_all a list now dims) list
unfolding mount_all
mount_all-MountedAll a [] now dims = record {
  keys = λ sid. (inl, elim [ inl p ↦ p | inr p ↦ absurd p ]);
  distinct = λ d. d;
  settled = λ h. h;
}
mount_all-MountedAll a (l ∷ ls) now dims =
    let m = mount-Mounted a l.id l.title now dims in
    let r = mount_all-MountedAll (mount a l.id l.title now dims) ls now dims in
    record {
      keys =
          λ sid. (there sid (m.keys sid).0 (r.keys sid).0, back sid (m.keys sid).1 (r.keys sid).1);
      distinct = λ d. r.distinct (m.distinct d);
      settled = λ h. r.settled (m.settled h);
    }
  where
    there :
        (sid : Sid) {P Q R : Type 0}
        → (Q → R ⊎ (sid ≡ l.id))
        → (P → Q ⊎ In sid (ids ls))
        → P
        → R ⊎ In sid (ids (l ∷ ls))
    there sid f g p = elim (g p) [
      | inl q ↦ elim (f q) [ inl x ↦ inl x | inr x ↦ inr (inl x) ]
      | inr q ↦ inr (inr q)
    ]

    back :
        (sid : Sid) {P Q R : Type 0}
        → (R ⊎ (sid ≡ l.id) → Q)
        → (Q ⊎ In sid (ids ls) → P)
        → R ⊎ In sid (ids (l ∷ ls))
        → P
    back sid f g (inl x) = g (inl (f (inl x)))
    back sid f g (inr (inl x)) = g (inl (f (inr x)))
    back sid f g (inr (inr x)) = g (inr x)
