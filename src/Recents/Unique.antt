-- ===== src/Recents/Unique.antt =====
-- An entry saved to the front of a recent list stands once, and the list stays within its bound.
use shells.Prelude.{
  ◌≤◌, ◌≡◌, ◌≢◌, sym, ap, ◌∙◌, refl, inl, inr, ℕ, zero, suc, Bool, true, List, [], ◌∷◌, arith, map,
  filter, take, length, length-take, Str, In, AllDistinct, Bool-cases, subst,
}
use shells.Recents.State.{to_front}

pub In-filter :
    (p : Str → Bool) (xs : List Str) (y : Str) → In y (filter p xs) → In y xs × (p y ≡ true)
In-filter p [] y h = absurd h
In-filter p (x ∷ xs) y h = elim (Bool-cases (p x)) [
  | inl e ↦ keep (In-filter p xs y) (rw e at h) e
  | inr e ↦ let (i, k) = In-filter p xs y (rw e at h) in (inr i, k)
]
  where
    keep :
        (In y (filter p xs) → In y xs × (p y ≡ true))
        → In y (x ∷ filter p xs)
        → p x ≡ true
        → In y (x ∷ xs) × (p y ≡ true)
    keep rest (inl q) e = (inl q, ap p q ∙ e)
    keep rest (inr i) e = let (j, k) = rest i in (inr j, k)

pub filter-In :
    (p : Str → Bool) (xs : List Str) (y : Str) → In y xs → p y ≡ true → In y (filter p xs)
filter-In p [] y h e = absurd h
filter-In p (x ∷ xs) y (inl q) e = rw (sym (ap p q) ∙ e) (inl q)
filter-In p (x ∷ xs) y (inr i) e = elim (Bool-cases (p x)) [
  | inl k ↦ rw k (inr (filter-In p xs y i e))
  | inr k ↦ rw k (filter-In p xs y i e)
]

In-map :
    (f : Str → Str) (xs : List Str) (k : Str) → In k (map f xs) → (y : Str) × (In y xs × (f y ≡ k))
In-map f [] k h = absurd h
In-map f (x ∷ xs) k (inl e) = (x, (inl refl, sym e))
In-map f (x ∷ xs) k (inr h) = let (y, (i, e)) = In-map f xs k h in (y, (inr i, e))

map-In : (f : Str → Str) (xs : List Str) (y : Str) → In y xs → In (f y) (map f xs)
map-In f [] y h = absurd h
map-In f (x ∷ xs) y (inl e) = inl (ap f e)
map-In f (x ∷ xs) y (inr h) = inr (map-In f xs y h)

filter-AllDistinct :
    (f : Str → Str) (p : Str → Bool) (xs : List Str)
    → AllDistinct (map f xs)
    → AllDistinct (map f (filter p xs))
filter-AllDistinct f p [] d = tt
filter-AllDistinct f p (x ∷ xs) (new, d) = elim (Bool-cases (p x)) [
  | inl e ↦ rw e (absent, filter-AllDistinct f p xs d)
  | inr e ↦ rw e (filter-AllDistinct f p xs d)
]
  where
    absent : In (f x) (map f (filter p xs)) → ⊥
    absent h =
        let (y, (i, e)) = In-map f (filter p xs) (f x) h in
        new (subst (λ k. In k (map f xs)) e (map-In f xs y (In-filter p xs y i).0))

In-take :
    (f : Str → Str) (n : ℕ) (xs : List Str) (k : Str) → In k (map f (take n xs)) → In k (map f xs)
In-take f zero xs k h = absurd h
In-take f (suc n) [] k h = absurd h
In-take f (suc n) (x ∷ xs) k (inl e) = inl e
In-take f (suc n) (x ∷ xs) k (inr h) = inr (In-take f n xs k h)

take-AllDistinct :
    (f : Str → Str) (n : ℕ) (xs : List Str)
    → AllDistinct (map f xs)
    → AllDistinct (map f (take n xs))
take-AllDistinct f zero xs d = tt
take-AllDistinct f (suc n) [] d = tt
take-AllDistinct f (suc n) (x ∷ xs) (new, d) =
    (λ h. new (In-take f n xs (f x) h), take-AllDistinct f n xs d)

-- Where the test drops what has the key of the new entry, no key stands twice.
pub to_front-AllDistinct :
    (f : Str → Str) (p : Str → Bool) (n : ℕ) (x : Str) (xs : List Str)
    → ((y : Str) → p y ≡ true → f y ≢ f x)
    → AllDistinct (map f xs)
    → AllDistinct (map f (to_front p n x xs))
unfolding to_front
to_front-AllDistinct f p n x xs sep d =
    take-AllDistinct f n (x ∷ filter p xs) (absent, filter-AllDistinct f p xs d)
  where
    absent : In (f x) (map f (filter p xs)) → ⊥
    absent h = let (y, (i, e)) = In-map f (filter p xs) (f x) h in sep y (In-filter p xs y i).1 e

pub length-to_front :
    (p : Str → Bool) (n : ℕ) (x : Str) (xs : List Str) → length (to_front p n x xs) ≤ n
unfolding to_front
length-to_front p n x xs = omega (arith, length-take n (x ∷ filter p xs))
