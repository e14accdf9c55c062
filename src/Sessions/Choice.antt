-- ===== src/Sessions/Choice.antt =====
-- The session that `restore` chooses from the saved ids, and what its sorting keeps.
use shells.Prelude.{
  ◌≡◌, refl, ◌⊎◌, inl, inr, Bool, true, false, Option, some, none, List, [], ◌∷◌, nat_eq, In,
  Bool-cases, if◌then◌else◌, get_last?,
}
use shells.JsMap
use shells.JsMap.Laws.{includes_iff}
use shells.Sessions.State.{Sid}
use shells.Sessions.Active.{index_of}
use shells.Sessions.Lifecycle.{Listed, ids}
use shells.Sessions.Restore.{before, insert_by, sort_by, sorted, choose}

In-if :
    {P : Type 0} (b : Bool) (x : Sid) (s t : List Listed)
    → (In x (ids s) → P)
    → (In x (ids t) → P)
    → In x (ids (if b then s else t))
    → P
In-if true x s t f g h = f h
In-if false x s t f g h = g h

In-insert_by :
    (order : List Sid) (l : Listed) (ls : List Listed) (x : Sid)
    → In x (ids (insert_by order l ls))
    → (x ≡ l.id) ⊎ In x (ids ls)
unfolding insert_by
In-insert_by order l [] x (inl e) = inl e
In-insert_by order l [] x (inr e) = elim e [ ]
In-insert_by order l (k ∷ ks) x h =
    In-if (before (index_of order l.id) (index_of order k.id)) x (l ∷ (k ∷ ks))
      (k ∷ insert_by order l ks) (λ p. p) (later (In-insert_by order l ks x)) h
  where
    later :
        {P : Type 0}
        → (P → (x ≡ l.id) ⊎ In x (ids ks))
        → (x ≡ k.id) ⊎ P
        → (x ≡ l.id) ⊎ In x (ids (k ∷ ks))
    later f (inl e) = inr (inl e)
    later f (inr p) = elim (f p) [ inl e ↦ inl e | inr q ↦ inr (inr q) ]

In-sort_by :
    (order : List Sid) (ls : List Listed) (x : Sid) → In x (ids (sort_by order ls)) → In x (ids ls)
unfolding sort_by
In-sort_by order [] x h = h
In-sort_by order (l ∷ ls) x h = elim (In-insert_by order l (sort_by order ls) x h) [
  | inl e ↦ inl e
  | inr p ↦ inr (In-sort_by order ls x p)
]

pub In-sorted :
    (order : Option (List Sid)) (ls : List Listed) (x : Sid)
    → In x (ids (sorted order ls))
    → In x (ids ls)
In-sorted none ls x h = h
In-sorted (some order) ls x h = In-sort_by order ls x h

In-if_back :
    (b : Bool) (x : Sid) (s t : List Listed)
    → In x (ids s)
    → In x (ids t)
    → In x (ids (if b then s else t))
In-if_back true x s t f g = f
In-if_back false x s t f g = g

insert_by-In :
    (order : List Sid) (l : Listed) (ls : List Listed) (x : Sid)
    → (x ≡ l.id) ⊎ In x (ids ls)
    → In x (ids (insert_by order l ls))
unfolding insert_by
insert_by-In order l [] x h = h
insert_by-In order l (k ∷ ks) x h =
    In-if_back (before (index_of order l.id) (index_of order k.id)) x (l ∷ (k ∷ ks))
      (k ∷ insert_by order l ks) h (later (insert_by-In order l ks x) h)
  where
    later :
        {P : Type 0}
        → ((x ≡ l.id) ⊎ In x (ids ks) → P)
        → (x ≡ l.id) ⊎ ((x ≡ k.id) ⊎ In x (ids ks))
        → (x ≡ k.id) ⊎ P
    later f (inl e) = inr (f (inl e))
    later f (inr (inl e)) = inl e
    later f (inr (inr i)) = inr (f (inr i))

sort_by-In :
    (order : List Sid) (ls : List Listed) (x : Sid) → In x (ids ls) → In x (ids (sort_by order ls))
unfolding sort_by
sort_by-In order [] x h = h
sort_by-In order (l ∷ ls) x (inl e) = insert_by-In order l (sort_by order ls) x (inl e)
sort_by-In order (l ∷ ls) x (inr i) =
    insert_by-In order l (sort_by order ls) x (inr (sort_by-In order ls x i))

sorted-In :
    (order : Option (List Sid)) (ls : List Listed) (x : Sid)
    → In x (ids ls)
    → In x (ids (sorted order ls))
sorted-In none ls x h = h
sorted-In (some order) ls x h = sort_by-In order ls x h

-- The saved id is there, and in the list.
abbrev pub IsListed : Option Sid → List Listed → Type 0
IsListed none list = ⊥
IsListed (some id) list = In id (ids list)

-- The saved session is taken where it is listed, and the last of the sorted list where it is not.
abbrev pub IsChosen : Option Sid → Option (List Sid) → List Listed → Option Sid → Type 0
IsChosen saved order list id =
    (IsListed saved list × (id ≡ saved))
    ⊎ ((IsListed saved list → ⊥) × (id ≡ get_last? (ids (sorted order list))))

pub choose-IsChosen :
    (saved : Option Sid) (order : Option (List Sid)) (list : List Listed)
    → IsChosen saved order list (choose saved (sorted order list))
unfolding choose
choose-IsChosen none order list = inr (λ h. h, refl)
choose-IsChosen (some id) order list =
    elim (Bool-cases (JsMap.includes (ids (sorted order list)) id)) [
      | inl e ↦
          inl (In-sorted order list id ((includes_iff (ids (sorted order list)) id).0 e), rw e refl)
      | inr e ↦ inr (
        λ h.
            absurd
              (cc (e, (includes_iff (ids (sorted order list)) id).1 (sorted-In order list id h))),
        rw e refl,
      )
    ]
