-- ===== src/Dialogs/Shown.antt =====
-- The list of the cards of a `select`: its indices and its elements.
use shells.Prelude.{
  ℕ, zero, suc, ◌+◌, ◌-◌, ◌%◌, ◌<◌, ◌≡◌, refl, ◌⊎◌, inl, inr, Bool, true, false, Option, some, List,
  [], ◌∷◌, Str, length, get_elem?, filter, All, arith, if-cases, str_eq, Option-cases, subst,
}
use native.Mathlib.Nat.{mod-lt}
use shells.Backends.Text.{ℤ, pos, negsuc}
use shells.Dialogs.Select.{Choosable, find_value, max_zero, wrap, is_empty}

pub wrap-lt : (i : ℤ) (n : ℕ) → 0 < n → wrap i n < n
unfolding wrap
wrap-lt (pos a) n h = mod-lt (a % n + n) h
wrap-lt (negsuc a) n h = mod-lt (n - suc a % n) h

pub empty-or-pos {ℓ} : {A : Type ℓ} (xs : List A) → (is_empty xs ≡ true) ⊎ (0 < length xs)
empty-or-pos [] = inl refl
empty-or-pos (x ∷ xs) = inr (omega arith)

pub positive : {b : Bool} {n : ℕ} → (b ≡ true) ⊎ (0 < n) → b ≡ false → 0 < n
positive (inl t) f = cc
positive (inr l) f = l

pub get-length {ℓ} :
    {A : Type ℓ} (xs : List A) (i : ℕ) (x : A) → get_elem? xs i ≡ some x → i < length xs
get-length [] i x e = cc
get-length (y ∷ ys) zero x e = omega arith
get-length (y ∷ ys) (suc i) x e = omega (arith, get-length ys i x e)

some-injective {ℓ} : {A : Type ℓ} {x y : A} → some x ≡ some y → x ≡ y
some-injective e = cc

module _ {ℓ κ} {A : Type ℓ} (P : A → Type κ) where
  pub All-get : (xs : List A) (i : ℕ) (x : A) → get_elem? xs i ≡ some x → All P xs → P x
  All-get [] i x e h = cc
  All-get (y ∷ ys) zero x e (p, h) = subst P (some-injective e) p
  All-get (y ∷ ys) (suc i) x e (p, h) = All-get ys i x e h

  pub All-filter : (t : A → Bool) (xs : List A) → All P xs → All P (filter t xs)
  All-filter t [] h = tt
  All-filter t (x ∷ xs) (p, h) =
      if-cases (All P) (t x) (x ∷ filter t xs) (filter t xs) (λ _. (p, All-filter t xs h))
        (λ _. All-filter t xs h)

find-bound :
    (c : Option Str) (os : List Choosable) (i : ℕ) → find_value c os ≡ some i → i < length os
unfolding find_value
find-bound c [] i e = cc
find-bound c (o ∷ os) i e = elim (Option-cases (find_value c os)) [
  | inl n ↦ ground (arith, n, e)
  | inr (j, n) ↦ ground (arith, n, e, find-bound c os j n)
]

pub find-lt :
    (c : Option Str) (os : List Choosable)
    → (is_empty os ≡ true) ⊎ (max_zero (find_value c os) < length os)
find-lt c [] = inl refl
find-lt c (o ∷ os) = elim (Option-cases (find_value c (o ∷ os))) [
  | inl n ↦ rw n (inr (omega arith))
  | inr (i, n) ↦ rw n (inr (find-bound c (o ∷ os) i n))
]
