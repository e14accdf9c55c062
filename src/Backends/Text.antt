-- ===== src/Backends/Text.antt =====
-- What `public/js/shell/backends.js` uses of JavaScript's strings and numbers.
use shells.Prelude.{
  ℕ, zero, suc, ◌+◌, ◌-◌, ◌*◌, ◌/◌, ◌%◌, Bool, true, false, ◌&&◌, ◌||◌, Option, none, some, [], ◌∷◌,
  Str, ◌==◌, nat_eq, leb, ltb, eqb, if◌then◌else◌,
}
use shells.Recents.Commands.{is_space}
use shells.Connection.Handshake.{all_space}

-- The integers, over the native numbers.
pub data ℤ : Type 0 where
  pos : ℕ → ℤ
  negsuc : ℕ → ℤ

unfoldable pub trim_start : Str → Str
unfolding is_space
trim_start [] = []
trim_start (c ∷ s) = if is_space c then trim_start s else c ∷ s

unfoldable pub trim_end : Str → Str
unfolding all_space
trim_end [] = []
trim_end (c ∷ s) = if all_space (c ∷ s) then [] else c ∷ trim_end s

-- `s.trim()`
unfoldable pub trim : Str → Str
unfolding trim_start trim_end
trim s = trim_end (trim_start s)

unfoldable pub split_more : ℕ → ℕ → Str → Option (Str × Str) → Option (Str × Str)
split_more c d s (some (u, v)) = some (d ∷ u, v)
split_more c d s none = if d == c then some ([], s) else none

-- What is before and after the last `c`: `lastIndexOf` and the two `substring`s.
unfoldable pub split_last : ℕ → Str → Option (Str × Str)
unfolding split_more
split_last c [] = none
split_last c (d ∷ s) = split_more c d s (split_last c s)

-- The value of a digit in radix 10 or 16.
unfoldable pub digit : ℕ → ℕ → Option ℕ
digit radix c =
    if leb 48 c && leb c 57
    then some (c - 48)
    else if eqb radix 16 && leb 97 c && leb c 102
    then some (c - 87)
    else if eqb radix 16 && leb 65 c && leb c 70
    then some (c - 55)
    else none

abbrev pub or_zero : Option ℕ → ℕ
or_zero none = 0
or_zero (some n) = n

-- The longest run of digits in front; `acc` is the number before it, none where there is no digit yet.
unfoldable pub take_number : ℕ → Option ℕ → Str → Option ℕ
unfolding digit
take_number radix acc [] = acc
take_number radix acc (c ∷ s) = elim (digit radix c) [
  | none ↦ acc
  | some d ↦ take_number radix (some (radix * or_zero acc + d)) s
]

-- What follows a prefix `0x` or `0X`.
unfoldable pub hexadecimal : Str → Option Str
hexadecimal (c ∷ (x ∷ s)) = if c == 48 && (x == 120 || x == 88) then some s else none
hexadecimal _ = none

-- After the sign.
unfoldable pub unsigned : Str → Option ℕ
unfolding take_number hexadecimal
unsigned s = elim (hexadecimal s) [ some t ↦ take_number 16 none t | none ↦ take_number 10 none s ]

unfoldable pub positive : Option ℕ → Option ℤ
positive none = none
positive (some n) = some (pos n)

unfoldable pub negative : Option ℕ → Option ℤ
negative none = none
negative (some zero) = some (pos zero)
negative (some (suc n)) = some (negsuc n)

unfoldable pub signed : Str → Option ℤ
unfolding unsigned positive negative
signed [] = none
signed (c ∷ s) =
    if c == 45 then negative (unsigned s) else positive (unsigned (if c == 43 then s else c ∷ s))

-- `parseInt(s)`, none for NaN.
unfoldable pub parse_int : Str → Option ℤ
unfolding trim_start signed
parse_int s = signed (trim_start s)

-- The decimal digits of a number before a text, on fuel.
unfoldable pub decimal : ℕ → ℕ → Str → Str
decimal zero n t = t
decimal (suc fuel) n t = elim (ltb n 10) [
  | true ↦ (48 + n) ∷ t
  | false ↦ decimal fuel (n / 10) ((48 + n % 10) ∷ t)
]

-- A number in a template string.
unfoldable pub print : ℤ → Str
unfolding decimal
print (pos n) = decimal (suc n) n []
print (negsuc n) = 45 ∷ decimal (suc (suc n)) (suc n) []

unfoldable pub starts_with : Str → Str → Bool
starts_with s [] = true
starts_with [] (d ∷ t) = false
starts_with (c ∷ s) (d ∷ t) = c == d && starts_with s t

-- `s.includes(t)`
unfoldable pub contains : Str → Str → Bool
unfolding starts_with
contains [] t = starts_with [] t
contains (c ∷ s) t = starts_with (c ∷ s) t || contains s t
