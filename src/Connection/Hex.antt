-- ===== src/Connection/Hex.antt =====
-- Bytes as hexadecimal text: `hexToUint8Array` and `resolveSecretHash` of
-- `public/js/shell-sessions.js`. Strings and byte arrays are lists of numbers.
use shells.Prelude.{
  ◌+◌, ◌-◌, ◌*◌, ◌/◌, ◌%◌, ◌<◌, ◌≡◌, refl, ℕ, ◌&&◌, Option, none, some, List, [], ◌∷◌, arith, leb,
  ltb, if◌then◌else◌, Str, All,
}

abbrev pub Bytes : Type 0
Bytes = List ℕ

-- A digit of `toString(16)`.
unfoldable pub hex_char : ℕ → ℕ
hex_char n = if ltb n 10 then 48 + n else 87 + n

unfoldable pub hex_val : ℕ → Option ℕ
hex_val c =
    if leb 48 c && leb c 57
    then some (c - 48)
    else if leb 97 c && leb c 102
    then some (c - 87)
    else if leb 65 c && leb c 70
    then some (c - 55)
    else none

-- The byte that `parseInt(s, 16)` of one or two digits is stored as: `NaN` is stored as 0, and the
-- reading stops at the first character that is no digit. A sign or white space is not read here.
unfoldable pub parse_one : ℕ → ℕ
unfolding hex_val
parse_one a = elim (hex_val a) [ none ↦ 0 | some x ↦ x ]

abbrev pub digits : Option ℕ → Option ℕ → ℕ
digits none _ = 0
digits (some x) none = x
digits (some x) (some y) = 16 * x + y

unfoldable pub parse_two : ℕ → ℕ → ℕ
unfolding hex_val
parse_two a b = digits (hex_val a) (hex_val b)

-- The array has `hex.length / 2` places, rounded down: an odd digit at the end is lost.
unfoldable pub hex_to_bytes : Str → Bytes
unfolding parse_two
hex_to_bytes [] = []
hex_to_bytes (a ∷ []) = []
hex_to_bytes (a ∷ (b ∷ hex)) = parse_two a b ∷ hex_to_bytes hex

-- `toString(16).padStart(2, '0')` of every byte.
unfoldable pub bytes_to_hex : Bytes → Str
unfolding hex_char
bytes_to_hex [] = []
bytes_to_hex (b ∷ bytes) = hex_char (b / 16) ∷ (hex_char (b % 16) ∷ bytes_to_hex bytes)

abbrev pub AreBytes : List ℕ → Type 0
AreBytes bytes = All (λ b. b < 256) bytes

pub hex_val-hex_char : (n : ℕ) → n < 16 → hex_val (hex_char n) ≡ some n
unfolding hex_val hex_char
hex_val-hex_char n h = ground arith

pub parse-hex_char : (b : ℕ) → b < 256 → parse_two (hex_char (b / 16)) (hex_char (b % 16)) ≡ b
unfolding parse_two
parse-hex_char b h =
    rw (hex_val-hex_char (b / 16) (omega arith), hex_val-hex_char (b % 16) (omega arith))
      (omega arith)

-- A secret hash is read back from its hexadecimal text as it was.
pub hex_to_bytes-bytes_to_hex :
    (bytes : Bytes) → AreBytes bytes → hex_to_bytes (bytes_to_hex bytes) ≡ bytes
unfolding hex_to_bytes bytes_to_hex
hex_to_bytes-bytes_to_hex [] h = refl
hex_to_bytes-bytes_to_hex (b ∷ bytes) (e, h) =
    rw (parse-hex_char b e, hex_to_bytes-bytes_to_hex bytes h)
