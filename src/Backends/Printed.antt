-- ===== src/Backends/Printed.antt =====
-- A number in decimal is read back, and has no character but digits.
use shells.Prelude.{
  ℕ, zero, suc, ◌+◌, ◌*◌, ◌/◌, ◌%◌, ◌≤◌, ◌<◌, ◌≡◌, refl, sym, ap, ◌∙◌, none, some, [], ◌∷◌, Str,
  nat_eq, ltb, All, arith, Bool-cases, inl, inr,
}
use shells.Recents.Commands.{is_space}
use shells.Backends.Text.{
  ℤ, pos, negsuc, trim_start, digit, take_number, hexadecimal, unsigned, positive, negative, signed,
  parse_int, decimal, print,
}

abbrev pub IsDigit : ℕ → Type 0
IsDigit c = (48 ≤ c) × (c ≤ 57)

digit-code : (n : ℕ) → n < 10 → digit 10 (48 + n) ≡ some n
unfolding digit
digit-code n h = ground arith

-- One more digit behind a number.
take_number-digit :
    (a n : ℕ) (t : Str)
    → n < 10
    → take_number 10 (some a) ((48 + n) ∷ t) ≡ take_number 10 (some (10 * a + n)) t
unfolding take_number
take_number-digit a n t h = rw (take_number, digit-code n h) refl

take_number-first :
    (n : ℕ) (t : Str) → n < 10 → take_number 10 none ((48 + n) ∷ t) ≡ take_number 10 (some n) t
unfolding take_number
take_number-first n t h =
    rw (take_number, digit-code n h) (ap (λ k. take_number 10 (some k) t) (omega arith))

take_number-decimal :
    (fuel n : ℕ) (t : Str)
    → n < fuel
    → take_number 10 none (decimal fuel n t) ≡ take_number 10 (some n) t
unfolding decimal
take_number-decimal zero n t h = absurd (omega arith)
take_number-decimal (suc fuel) n t h = elim (Bool-cases (ltb n 10)) [
  | inl e ↦ rw (decimal, e) (take_number-first n t (ground arith))
  | inr e ↦
      rw (decimal, e)
        (take_number-decimal fuel (n / 10) ((48 + n % 10) ∷ t) (ground arith)
          ∙ (take_number-digit (n / 10) (n % 10) t (omega arith)
              ∙ ap (λ k. take_number 10 (some k) t) (omega arith)))
]

-- The first character of a printed number is a digit, and so are the others.
decimal-digits :
    (fuel n : ℕ) (t : Str)
    → n < fuel
    → All IsDigit t
    → (c : ℕ) × (s : Str) × (decimal fuel n t ≡ c ∷ s) × All IsDigit (c ∷ s)
unfolding decimal
decimal-digits zero n t h d = absurd (omega arith)
decimal-digits (suc fuel) n t h d = elim (Bool-cases (ltb n 10)) [
  | inl e ↦ rw (decimal, e) (48 + n, t, refl, ((ground arith, ground arith), d))
  | inr e ↦
      rw (decimal, e)
        (decimal-digits fuel (n / 10) ((48 + n % 10) ∷ t) (ground arith)
          ((omega arith, omega arith), d))
]

-- A text of digits is not a number in radix 16.
hexadecimal-digits : (c : ℕ) (s : Str) → All IsDigit (c ∷ s) → hexadecimal (c ∷ s) ≡ none
unfolding hexadecimal
hexadecimal-digits c [] d = refl
hexadecimal-digits c (x ∷ s) ((a, b), ((e, f), d)) = ground arith

unsigned-decimal : (n : ℕ) → unsigned (decimal (suc n) n []) ≡ some n
unfolding unsigned
unsigned-decimal n =
    let (c, s, e, d) = decimal-digits (suc n) n [] (omega arith) tt in
    rw (unsigned, ap hexadecimal e ∙ hexadecimal-digits c s d)
      (take_number-decimal (suc n) n [] (omega arith))

-- What is read where a digit comes first.
parse_int-digits : (c : ℕ) (s : Str) → IsDigit c → parse_int (c ∷ s) ≡ positive (unsigned (c ∷ s))
unfolding parse_int trim_start signed is_space
parse_int-digits c s (a, b) = ground arith

parse_int-minus : (s : Str) → parse_int (45 ∷ s) ≡ negative (unsigned s)
unfolding parse_int trim_start signed is_space
parse_int-minus s = refl

-- A printed integer is read back.
pub parse_int-print : (p : ℤ) → parse_int (print p) ≡ some p
unfolding print positive negative
parse_int-print (pos n) =
    let (c, s, e, d) = decimal-digits (suc n) n [] (omega arith) tt in
    (ap parse_int e ∙ parse_int-digits c s d.0)
    ∙ (ap (λ x. positive (unsigned x)) (sym e) ∙ ap positive (unsigned-decimal n))
parse_int-print (negsuc n) =
    parse_int-minus (decimal (suc (suc n)) (suc n) []) ∙ ap negative (unsigned-decimal (suc n))

-- A character of a printed integer: a digit or the minus sign.
abbrev pub IsOfNumber : ℕ → Type 0
IsOfNumber c = (45 ≤ c) × (c ≤ 57)

All-weak : (s : Str) → All IsDigit s → All IsOfNumber s
All-weak [] d = tt
All-weak (c ∷ s) ((a, b), d) = ((omega arith, b), All-weak s d)

pub print-shape : (p : ℤ) → (c : ℕ) × (s : Str) × (print p ≡ c ∷ s) × All IsOfNumber (c ∷ s)
unfolding print
print-shape (pos n) =
    let (c, s, e, d) = decimal-digits (suc n) n [] (omega arith) tt in (c, s, e, All-weak (c ∷ s) d)
print-shape (negsuc n) =
    let (c, s, e, d) = decimal-digits (suc (suc n)) (suc n) [] (omega arith) tt in
    (45, c ∷ s, ap (45 ∷◌) e, ((omega arith, omega arith), All-weak (c ∷ s) d))
