-- ===== src/Update/Restart.antt =====
-- The wait for the new server after an update: at most fifty polls.
use shells.Prelude.{
  ℕ, suc, ◌-◌, ltb, ap, sym, ◌∙◌, subst, ◌+◌, ◌≤◌, ◌<◌, ◌≡◌, ◌≢◌, ◌⊎◌, inl, inr, refl, Bool, true,
  false, Option, none, some, List, [], ◌∷◌, Str, ◌==◌, str_eq, leb, length, get_elem?, Bool-cases,
  arith,
}
use shells.Update.{bare_v, Health, Up, reachable, polling, on_poll, poll}

-- One of the first `n` answers has the version.
abbrev pub Answers : Str → ℕ → List (Option Health) → Type 0
Answers target n hs =
    (i : ℕ) × (h : Health) × (i < n)
    × (get_elem? hs i ≡ some (some h))
    × (bare_v h.version == bare_v target ≡ true)

-- The end of the polls, or the first one that decides.
on_poll-cases :
    (target : Str) (o : Option Health) (last : Bool) (rest : Up)
    → ((h : Health) × (o ≡ some h)
        × (bare_v h.version == bare_v target ≡ true)
        × (on_poll target o last rest ≡ reachable))
      ⊎ ((on_poll target o last rest ≢ reachable) × (on_poll target o last rest ≢ polling))
      ⊎ ((last ≡ false) × (on_poll target o last rest ≡ rest))
unfolding on_poll
on_poll-cases target none true rest = inr (inl ((λ e. cc), (λ e. cc)))
on_poll-cases target none false rest = inr (inr (refl, refl))
on_poll-cases target (some h) last rest = elim (Bool-cases (bare_v h.version == bare_v target)) [
  | inl e ↦ inl (h, refl, e, rw e refl)
  | inr e ↦ elim (Bool-cases h.update_refused) [
    | inl f ↦ inr (inl (rw (e, f) (λ p. cc), rw (e, f) (λ p. cc)))
    | inr f ↦ elim (Bool-cases last) [
      | inl l ↦ inr (inl (rw (e, f, l) (λ p. cc), rw (e, f, l) (λ p. cc)))
      | inr l ↦ inr (inr (l, rw (e, f, l) refl))
    ]
  ]
]

later :
    (target : Str) (o : Option Health) (hs : List (Option Health)) (n : ℕ)
    → Answers target n hs
    → Answers target (suc n) (o ∷ hs)
later target o hs n (i, h, b, g, e) = (suc i, h, omega arith, g, e)

poll-reachable :
    (target : Str) (tries : ℕ) (hs : List (Option Health))
    → poll target tries hs ≡ reachable
    → Answers target (50 - tries) hs ⊎ (50 ≤ tries)
unfolding poll
poll-reachable target tries [] r = cc
poll-reachable target tries (o ∷ hs) r = elim (Bool-cases (ltb tries 50)) [
  | inr l ↦ inr (ground arith)
  | inl l ↦ elim (on_poll-cases target o (leb 50 (suc tries)) (poll target (suc tries) hs)) [
    | inl (h, e, v, q) ↦ inl (0, h, ground arith, ap some e, v)
    | inr (inl (never, w)) ↦ absurd (never r)
    | inr (inr (last, q)) ↦ more (poll-reachable target (suc tries) hs (sym q ∙ r)) (ground arith)
  ]
]
  where
    more :
        Answers target (50 - suc tries) hs ⊎ (50 ≤ suc tries)
        → suc tries < 50
        → Answers target (50 - tries) (o ∷ hs) ⊎ (50 ≤ tries)
    more (inl a) l = inl (
        subst (λ n. Answers target n (o ∷ hs)) (omega arith) (later target o hs (50 - suc tries) a))
    more (inr b) l = absurd (omega arith)

poll-ends :
    (target : Str) (tries : ℕ) (hs : List (Option Health))
    → tries < 50
    → 50 ≤ tries + length hs
    → poll target tries hs ≢ polling
unfolding poll
poll-ends target tries [] l b r = absurd (omega arith)
poll-ends target tries (o ∷ hs) l b r =
    elim (on_poll-cases target o (leb 50 (suc tries)) (poll target (suc tries) hs)) [
      | inl (h, e, v, q) ↦ cc
      | inr (inl (w, never)) ↦ never r
      | inr (inr (last, q)) ↦
          poll-ends target (suc tries) hs (ground arith) (omega arith) (sym q ∙ r)
    ]

-- The wait for the new server ends with its fiftieth poll at the latest, and the page is reloaded only
-- where one of these fifty polls has answered with the version that was asked for.
pub poll_lem :
    (target : Str) (hs : List (Option Health))
    → 50 ≤ length hs
    → (poll target 0 hs ≢ polling) × (poll target 0 hs ≡ reachable → Answers target 50 hs)
poll_lem target hs b = (
  poll-ends target 0 hs (omega arith) (omega (arith, b)),
  λ r. within (poll-reachable target 0 hs r),
)
  where
    within : Answers target (50 - 0) hs ⊎ (50 ≤ 0) → Answers target 50 hs
    within (inl a) = a
    within (inr n) = absurd (omega arith)
