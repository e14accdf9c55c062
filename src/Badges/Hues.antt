-- ===== src/Badges/Hues.antt =====
-- The hash of a hue stays a number that JavaScript holds exactly.
use shells.Prelude.{ℕ, zero, suc, ◌+◌, ◌*◌, ◌^◌, ◌%◌, ◌≤◌, ◌<◌, [], ◌∷◌, Str, All, length, arith}
use native.Mathlib.Nat.{mod-lt}
use shells.Backends.Text.{ℤ, pos, negsuc}
use shells.Dialogs.Select.{sub}
use shells.Badges.{minus, plus, low_bits, to_signed, shift_left_5, hash_from, magnitude, hash_hue}

magnitude-sub : (a b : ℕ) → magnitude (sub a b) ≤ a + b
unfolding sub
magnitude-sub a zero = omega arith
magnitude-sub zero (suc b) = omega arith
magnitude-sub (suc a) (suc b) = omega (arith, magnitude-sub a b)

magnitude-minus : (x y : ℤ) → magnitude (minus x y) ≤ magnitude x + magnitude y
magnitude-minus (pos a) (pos b) = magnitude-sub a b
magnitude-minus (pos a) (negsuc b) = omega arith
magnitude-minus (negsuc a) (pos b) = omega arith
magnitude-minus (negsuc a) (negsuc b) = omega (arith, magnitude-sub b a)

magnitude-plus : (c : ℕ) (x : ℤ) → magnitude (plus c x) ≤ c + magnitude x
magnitude-plus c (pos a) = omega arith
magnitude-plus c (negsuc a) = magnitude-sub c (suc a)

to_signed-le : (m : ℕ) → m < 2 ^ 32 → magnitude (to_signed m) ≤ 2 ^ 31
unfolding to_signed
to_signed-le m h = ground arith

shift-le : (h : ℤ) → magnitude (shift_left_5 h) ≤ 2 ^ 31
unfolding shift_left_5
shift-le h = to_signed-le ((low_bits h * 32) % 2 ^ 32) (mod-lt (low_bits h * 32) (omega arith))

hash_from-le :
    (h : ℤ) (s : Str)
    → All (λ c. c < 2 ^ 16) s
    → magnitude (hash_from h s) ≤ magnitude h + length s * (2 ^ 31 + 2 ^ 16)
unfolding hash_from
hash_from-le h [] g = omega arith
hash_from-le h (c ∷ s) (b, g) =
    let next = plus c (minus (shift_left_5 h) h) in
    omega (
      arith,
      b,
      hash_from-le next s g,
      magnitude-plus c (minus (shift_left_5 h) h),
      magnitude-minus (shift_left_5 h) h,
      shift-le h,
    )

-- For a text of at most four million code units the hash stays below 2^53, so that every number of the loop
-- is exact, and the hue is below 360.
pub hash_hue_lem :
    (s : Str)
    → All (λ c. c < 2 ^ 16) s
    → length s ≤ 4_000_000
    → (magnitude (hash_from (pos 0) s) < 2 ^ 53) × (hash_hue s < 360)
unfolding hash_hue
hash_hue_lem s g l = (
  omega (arith, hash_from-le (pos 0) s g, l),
  mod-lt (magnitude (hash_from (pos 0) s)) (omega arith),
)
