-- ===== src/Backends/Retries.antt =====
-- When the password loop of `public/js/shell/backends.js` ends.
use shells.Prelude.{
  ◌≡◌, refl, ◌↔◌, ◌⊎◌, inl, inr, Bool, true, false, ◌&&◌, not, Option, none, some, List, [], ◌∷◌,
  Bool-cases,
}
use shells.Backends.Address.{Address}
use shells.Backends.Choose.{
  Desk, Setup, Attempt, Choice, waiting, open_box, is_given, install, after, setup_loop,
}

-- The server answers that it did not install the key.
abbrev pub is_refused : Option Setup → Bool
is_refused none = false
is_refused (some s) = not s.ok

-- A turn after which the loop goes on: a password, a refusal and another try.
abbrev pub is_retried : Attempt → Bool
is_retried t = is_given t.password && (is_refused t.setup && t.retry)

abbrev pub all_retried : List Attempt → Bool
all_retried [] = true
all_retried (t ∷ ts) = is_retried t && all_retried ts

-- The choice of a turn: that of the rest where it is retried, and another end where it is not.
install-ends :
    (d : Desk) (addr : Address) (setup : Option Setup) (rest : Desk × Choice) (retry : Bool)
    → ((is_refused setup && retry ≡ true) × (install d addr setup rest retry ≡ rest))
      ⊎ ((is_refused setup && retry ≡ false) × ((install d addr setup rest retry).1 ≡ waiting → ⊥))
unfolding install
install-ends d addr none rest retry = inr (refl, λ e. cc)
install-ends d addr (some s) rest retry = elim (Bool-cases s.ok) [
  | inl e ↦ rw e (inr (refl, λ p. cc))
  | inr e ↦ elim (Bool-cases retry) [
    | inl f ↦ rw (e, f) (inl (refl, refl))
    | inr f ↦ rw (e, f) (inr (refl, λ p. cc))
  ]
]

-- The password loop waits for another answer exactly where every turn so far had a password, was
-- refused by the server and was tried again: any other turn ends it.
pub setup_loop-waiting :
    (d : Desk) (addr : Address) (ts : List Attempt)
    → ((setup_loop d addr ts).1 ≡ waiting) ↔ (all_retried ts ≡ true)
unfolding setup_loop
setup_loop-waiting d addr [] = (λ _. refl, λ _. refl)
setup_loop-waiting d addr (t ∷ ts) =
    let rest = setup_loop (after (open_box d) t.setup) addr ts in
    let ih = setup_loop-waiting (after (open_box d) t.setup) addr ts in
    elim (Bool-cases (is_given t.password)) [
      | inl e ↦ elim (install-ends (open_box d) addr t.setup rest t.retry) [
        | inl (b, same) ↦ rw (e, b, same) ih
        | inr (b, other) ↦ rw (e, b) (λ p. absurd (other p), λ q. cc)
      ]
      | inr e ↦ rw e (λ p. cc, λ q. cc)
    ]
