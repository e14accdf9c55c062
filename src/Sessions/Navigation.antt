-- ===== src/Sessions/Navigation.antt =====
-- `next` and `previous`: the order of the sessions, as a ring.
use native.Mathlib.Nat.{mod-add-mod}
use shells.Prelude.{
  ℕ, ◌+◌, ◌-◌, ◌%◌, ◌<◌, ◌≤◌, suc, zero, ◌≡◌, refl, sym, ap, ◌∙◌, Option, none, some, List, [], ◌∷◌,
  nat_eq, arith, length, get_elem?, leb, In, AllDistinct, Bool-cases, inl, inr, ◌==◌, eqb_iff,
  subst,
}
use shells.JsMap
use shells.JsMap.{JsMap}
use shells.Sessions.State.{Sid, App}
use shells.Sessions.Active.{set_active, index_of, index_of_opt, next, previous}
use shells.Sessions.Frame.{set_active-same}

index_of_cons :
    (y : Sid) (ys : List Sid) (x : Sid) (o : Option ℕ) (i : ℕ)
    → elim o [ none ↦ none | some j ↦ some (suc j) ] ≡ some i
    → (j : ℕ) × (o ≡ some j) × (i ≡ suc j)
index_of_cons y ys x none i h = cc
index_of_cons y ys x (some j) i h = (j, refl, cc)

at_first :
    (y : Sid) (ys : List Sid) (x : Sid) (i : ℕ)
    → y ≡ x
    → some 0 ≡ some i
    → get_elem? (y ∷ ys) i ≡ some x
at_first y ys x zero e h = cc
at_first y ys x (suc i) e h = absurd (ground arith)

-- A position that `indexOf` finds is one where the id stands.
index_of-get_elem? :
    (ids : List Sid) (x : Sid) (i : ℕ) → index_of ids x ≡ some i → get_elem? ids i ≡ some x
unfolding index_of
index_of-get_elem? [] x i h = cc
index_of-get_elem? (y ∷ ys) x i h = elim (Bool-cases (y == x)) [
  | inl p ↦ at_first y ys x i ((eqb_iff y x).0 p) (rw p at h)
  | inr p ↦
      let (j, e, f) = index_of_cons y ys x (index_of ys x) i (rw p at h) in
      rw f (index_of-get_elem? ys x j e)
]

get_elem?-In : (ids : List Sid) (i : ℕ) (x : Sid) → get_elem? ids i ≡ some x → In x ids
get_elem?-In [] i x h = cc
get_elem?-In (y ∷ ys) zero x h = inl (cc)
get_elem?-In (y ∷ ys) (suc i) x h = inr (get_elem?-In ys i x h)

-- Where no id stands twice, `indexOf` finds the one position.
get_elem?-index_of :
    (ids : List Sid) (i : ℕ) (x : Sid)
    → AllDistinct ids
    → get_elem? ids i ≡ some x
    → index_of ids x ≡ some i
unfolding index_of
get_elem?-index_of [] i x d h = cc
get_elem?-index_of (y ∷ ys) zero x d h = ground arith
get_elem?-index_of (y ∷ ys) (suc i) x (new, d) h = elim (Bool-cases (y == x)) [
  | inl p ↦ absurd (new (subst (λ t. In t ys) (sym ((eqb_iff y x).0 p)) (get_elem?-In ys i x h)))
  | inr p ↦ rw (p, get_elem?-index_of ys i x d h)
]

get_elem?-lt : (ids : List Sid) (i : ℕ) → i < length ids → (x : Sid) × (get_elem? ids i ≡ some x)
get_elem?-lt [] i h = absurd (omega arith)
get_elem?-lt (y ∷ ys) zero h = (y, refl)
get_elem?-lt (y ∷ ys) (suc i) h = get_elem?-lt ys i (omega arith)

index_of-lt : (ids : List Sid) (x : Sid) (i : ℕ) → get_elem? ids i ≡ some x → i < length ids
index_of-lt [] x i h = cc
index_of-lt (y ∷ ys) x zero h = omega arith
index_of-lt (y ∷ ys) x (suc i) h = omega (arith, index_of-lt ys x i h)

-- The sessions are `ids`, and the active one is the one at `i`.
pub record IsAt (a : App) (ids : List Sid) (i : ℕ) : Type 0 where
  pub order : JsMap.keys a.sessions ≡ ids
  pub active : a.active_id ≡ get_elem? ids i
  pub within : i < length ids

index_of_opt-IsAt :
    (a : App) (ids : List Sid) (i : ℕ)
    → AllDistinct ids
    → IsAt a ids i
    → index_of_opt ids a.active_id ≡ some i
unfolding index_of_opt
index_of_opt-IsAt a ids i d h =
    let (x, e) = get_elem?-lt ids i h.within in rw (h.active, e) (get_elem?-index_of ids i x d e)

set_active-IsAt :
    (a : App) (ids : List Sid) (i j : ℕ)
    → IsAt a ids i
    → j < length ids
    → IsAt (set_active a (get_elem? ids j)) ids j
set_active-IsAt a ids i j h lt =
    let (s, e) = set_active-same a (get_elem? ids j) in
    record { order = s.keys ∙ h.order; active = e; within = lt }

next-IsAt :
    (a : App) (ids : List Sid) (i : ℕ)
    → AllDistinct ids
    → IsAt a ids i
    → IsAt (next a) ids ((i + 1) % length ids)
unfolding next
next-IsAt a ids i d h = elim (Bool-cases (leb (length ids) 1)) [
  | inl e ↦ rw (h.order, e) (only (ground arith))
  | inr e ↦
      rw (h.order, e, index_of_opt-IsAt a ids i d h)
        (set_active-IsAt a ids i ((i + 1) % length ids) h (ground (arith, h.within)))
]
  where
    only : length ids ≤ 1 → IsAt a ids ((i + 1) % length ids)
    only l = subst (IsAt a ids) (grind (arith, h.within)) h

previous-IsAt :
    (a : App) (ids : List Sid) (i : ℕ)
    → AllDistinct ids
    → IsAt a ids i
    → IsAt (previous a) ids ((i + length ids - 1) % length ids)
unfolding previous
previous-IsAt a ids i d h = elim (Bool-cases (leb (length ids) 1)) [
  | inl e ↦ rw (h.order, e) (only (ground arith))
  | inr e ↦
      rw (h.order, e, index_of_opt-IsAt a ids i d h)
        (set_active-IsAt a ids i ((i + length ids - 1) % length ids) h (ground (arith, h.within)))
]
  where
    only : length ids ≤ 1 → IsAt a ids ((i + length ids - 1) % length ids)
    only l = subst (IsAt a ids) (grind (arith, h.within)) h

-- After `next`, `previous` makes the same session active again, and the other way round: the sessions
-- are `ids`, none twice, and the active one is among them.
pub previous-next :
    (a : App) (ids : List Sid) (i : ℕ)
    → AllDistinct ids
    → IsAt a ids i
    → ((previous (next a)).active_id ≡ a.active_id) × ((next (previous a)).active_id ≡ a.active_id)
previous-next a ids i d h = (
  back ((i + 1) % n) (previous-IsAt (next a) ids ((i + 1) % n) d (next-IsAt a ids i d h))
      (grind (arith, h.within)),
  forth ((i + n - 1) % n)
      (next-IsAt (previous a) ids ((i + n - 1) % n) d (previous-IsAt a ids i d h))
      (grind (arith, h.within)),
)
  where
    n : ℕ
    n = length ids

    back :
        (j : ℕ)
        → IsAt (previous (next a)) ids ((j + n - 1) % n)
        → (j + n - 1) % n ≡ i
        → (previous (next a)).active_id ≡ a.active_id
    back j k e = k.active ∙ ap (get_elem? ids) e ∙ sym h.active

    forth :
        (j : ℕ)
        → IsAt (next (previous a)) ids ((j + 1) % n)
        → (j + 1) % n ≡ i
        → (next (previous a)).active_id ≡ a.active_id
    forth j k e = k.active ∙ ap (get_elem? ids) e ∙ sym h.active

abbrev pub next_times : ℕ → App → App
next_times zero a = a
next_times (suc k) a = next_times k (next a)

-- Where the sessions are `ids`, none twice, and the active one is the one at place i, `next`, k times,
-- keeps the sessions and makes the one at place (i + k) % n active, of n sessions.
pub next_times-IsAt :
    (k : ℕ) (a : App) (ids : List Sid) (i : ℕ)
    → AllDistinct ids
    → IsAt a ids i
    → IsAt (next_times k a) ids ((i + k) % length ids)
next_times-IsAt zero a ids i d h = subst (IsAt a ids) (grind (arith, h.within)) h
next_times-IsAt (suc k) a ids i d h =
    subst (IsAt (next_times k (next a)) ids)
      (mod-add-mod (i + 1) (length ids) k ∙ ap (λ t. t % length ids) (omega arith))
      (next_times-IsAt k (next a) ids ((i + 1) % length ids) d (next-IsAt a ids i d h))
