-- ===== src/Prelude/Predicates.antt =====
-- Predicates on lists by recursion, which the tactics read and build.
use mathlib.Core.Path.{◌≡◌, sym}
use mathlib.Core.Logic.{◌⊎◌, ◌↔◌, inl, inr}
use mathlib.Core.List.{List, [], ◌∷◌, ◌++◌}

module _ {ℓ κ} {A : Type ℓ} where
  abbrev pub All : (A → Type κ) → List A → Type κ
  All P [] = Unit
  All P (x ∷ xs) = P x × All P xs

  pub All-snoc : (P : A → Type κ) (xs : List A) (x : A) → All P xs → P x → All P (xs ++ (x ∷ []))
  All-snoc P [] x h p = (p, tt)
  All-snoc P (y ∷ ys) x (q, h) p = (q, All-snoc P ys x h p)

module _ {A : Type 0} where
  abbrev pub In : A → List A → Type 0
  In a [] = ⊥
  In a (x ∷ xs) = (a ≡ x) ⊎ In a xs

  -- No element stands twice.
  abbrev pub AllDistinct : List A → Type 0
  AllDistinct [] = Unit
  AllDistinct (x ∷ xs) = (In x xs → ⊥) × AllDistinct xs

  pub In-snoc : (xs : List A) (x y : A) → In y (xs ++ x ∷ []) ↔ (In y xs ⊎ (y ≡ x))
  In-snoc [] x y = (there, back)
    where
      there : In y (x ∷ []) → In y [] ⊎ (y ≡ x)
      there (inl e) = inr e
      there (inr e) = absurd e

      back : In y [] ⊎ (y ≡ x) → In y (x ∷ [])
      back (inl e) = absurd e
      back (inr e) = inl e
  In-snoc (z ∷ zs) x y = (there (In-snoc zs x y).0, back (In-snoc zs x y).1)
    where
      there :
          (In y (zs ++ x ∷ []) → In y zs ⊎ (y ≡ x))
          → In y (z ∷ zs ++ x ∷ [])
          → In y (z ∷ zs) ⊎ (y ≡ x)
      there f (inl e) = inl (inl e)
      there f (inr e) = elim (f e) [ inl p ↦ inl (inr p) | inr p ↦ inr p ]

      back :
          (In y zs ⊎ (y ≡ x) → In y (zs ++ x ∷ []))
          → In y (z ∷ zs) ⊎ (y ≡ x)
          → In y (z ∷ zs ++ x ∷ [])
      back f (inl (inl e)) = inl e
      back f (inl (inr e)) = inr (f (inl e))
      back f (inr e) = inr (f (inr e))

  pub AllDistinct-snoc :
      (xs : List A) (x : A) → (In x xs → ⊥) → AllDistinct xs → AllDistinct (xs ++ x ∷ [])
  AllDistinct-snoc [] x n d = (λ e. e, tt)
  AllDistinct-snoc (y ∷ ys) x n (new, d) =
      (λ e. later ((In-snoc ys x y).0 e), AllDistinct-snoc ys x (λ e. n (inr e)) d)
    where
      later : In y ys ⊎ (y ≡ x) → ⊥
      later (inl e) = new e
      later (inr e) = n (inl (sym e))
