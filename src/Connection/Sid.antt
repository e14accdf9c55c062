-- ===== src/Connection/Sid.antt =====
-- The session id of a data frame: `sidToBuffer` and `bufferToSid` of `public/js/crypto.js`.
use shells.Prelude.{
  ◌+◌, ◌-◌, ◌<◌, ◌≤◌, ◌≡◌, ◌≢◌, refl, ap, sym, ◌∙◌, ℕ, zero, suc, false, not, [], ◌∷◌, ◌++◌, arith,
  ltb, if◌then◌else◌, Str, All, filter, take, drop, length, length-drop, take-append-drop, subst,
  ◌*◌, ◌/◌, ◌%◌, replicate, ◌==◌, nat_eq, str_eq,
}
use shells.JsMap.Laws.{beq_ne}
use shells.Connection.Hex.{
  Bytes, AreBytes, hex_char, parse_one, parse_two, bytes_to_hex, parse-hex_char,
}

abbrev pub dash : ℕ
dash = 45

-- `sid.replace(/-/g, '')`
unfoldable pub without_dashes : Str → Str
without_dashes sid = filter (λ c. not (c == dash)) sid

-- `n` rounds of the loop, from the digits that are left: past the end, `parseInt('')` is `NaN`.
unfoldable pub read_bytes : ℕ → Str → Bytes
unfolding parse_one parse_two
read_bytes zero hex = []
read_bytes (suc n) [] = 0 ∷ read_bytes n []
read_bytes (suc n) (a ∷ []) = parse_one a ∷ read_bytes n []
read_bytes (suc n) (a ∷ (b ∷ hex)) = parse_two a b ∷ read_bytes n hex

unfoldable pub sid_to_buffer : Str → Bytes
unfolding without_dashes read_bytes
sid_to_buffer sid = if sid == [] then replicate 16 0 else read_bytes 16 (without_dashes sid)

-- `hex.slice(i, j)` for `i <= j`.
abbrev pub slice : ℕ → ℕ → Str → Str
slice i j hex = take (j - i) (drop i hex)

unfoldable pub dashed : Str → Str
dashed hex =
    slice 0 8 hex
    ++ dash
      ∷ (slice 8 12 hex
          ++ dash ∷ (slice 12 16 hex ++ dash ∷ (slice 16 20 hex ++ dash ∷ slice 20 32 hex)))

unfoldable pub buffer_to_sid : Bytes → Str
unfolding dashed bytes_to_hex
buffer_to_sid buf = if ltb (length buf) 16 then [] else dashed (bytes_to_hex (take 16 buf))

-- Text in which no dash stands.
abbrev NoDash : Str → Type 0
NoDash hex = All (λ c. (c == dash) ≡ false) hex

without_dashes-NoDash : (hex : Str) → NoDash hex → without_dashes hex ≡ hex
unfolding without_dashes
without_dashes-NoDash [] h = refl
without_dashes-NoDash (c ∷ hex) (e, h) = rw e (ap (c ∷◌) (without_dashes-NoDash hex h))

without_dashes-append :
    (s t : Str) → without_dashes (s ++ dash ∷ t) ≡ without_dashes s ++ without_dashes t
unfolding without_dashes
without_dashes-append [] t = refl
without_dashes-append (c ∷ s) t = ground (arith, without_dashes-append s t)

take-NoDash : (n : ℕ) (s : Str) → NoDash s → NoDash (take n s)
take-NoDash zero s h = tt
take-NoDash (suc n) [] h = tt
take-NoDash (suc n) (c ∷ s) (e, h) = (e, take-NoDash n s h)

drop-NoDash : (n : ℕ) (s : Str) → NoDash s → NoDash (drop n s)
drop-NoDash zero s h = h
drop-NoDash (suc n) [] h = tt
drop-NoDash (suc n) (c ∷ s) (e, h) = drop-NoDash n s h

take_all : (n : ℕ) (s : Str) → length s ≤ n → take n s ≡ s
take_all zero [] h = refl
take_all zero (c ∷ s) h = absurd (ground arith)
take_all (suc n) [] h = refl
take_all (suc n) (c ∷ s) h = ap (c ∷◌) (take_all n s (omega arith))

take-drop : (i n j : ℕ) (s : Str) → i + n ≡ j → take n (drop i s) ++ drop j s ≡ drop i s
take-drop zero n j s e =
    subst (λ k. take n s ++ drop k s ≡ s) (omega (arith, e)) (take-append-drop n s)
take-drop (suc i) n zero s e = absurd (omega (arith, e))
take-drop (suc i) zero (suc j) [] e = refl
take-drop (suc i) (suc n) (suc j) [] e = refl
take-drop (suc i) n (suc j) (c ∷ s) e = take-drop i n j s (omega (arith, e))

module _ (hex : Str) (h : NoDash hex) where
  piece : (i n : ℕ) → without_dashes (take n (drop i hex)) ≡ take n (drop i hex)
  piece i n =
      without_dashes-NoDash (take n (drop i hex)) (take-NoDash n (drop i hex) (drop-NoDash i hex h))

  -- A group of digits and the dash behind it, before text that stands for the rest.
  peel :
      (i n j : ℕ) (x : Str)
      → i + n ≡ j
      → without_dashes x ≡ drop j hex
      → without_dashes (take n (drop i hex) ++ dash ∷ x) ≡ drop i hex
  peel i n j x e k =
      without_dashes-append (take n (drop i hex)) x
      ∙ ap (λ s. s ++ without_dashes x) (piece i n)
      ∙ ap (λ s. take n (drop i hex) ++ s) k
      ∙ take-drop i n j hex e

  without_dashes-dashed : length hex ≡ 32 → without_dashes (dashed hex) ≡ hex
  unfolding dashed
  without_dashes-dashed n = peel 0 8 8 _ refl (
      peel 8 4 12 _ refl (
        peel 12 4 16 _ refl (
          peel 16 4 20 _ refl
            (piece 20 12 ∙ take_all 12 (drop 20 hex) (omega (arith, length-drop 20 hex, n))))))

dashed_ne : (hex : Str) → length hex ≡ 32 → without_dashes (dashed hex) ≡ hex → dashed hex ≢ []
unfolding without_dashes
dashed_ne hex n e q = no_text (ap length (sym (ap without_dashes q) ∙ e) ∙ n)
  where
    no_text : length (without_dashes []) ≡ 32 → ⊥
    no_text k = omega (arith, k)

hex_char_digit : (n : ℕ) → n < 16 → (hex_char n == dash) ≡ false
unfolding hex_char
hex_char_digit n h = ground arith

bytes_to_hex-NoDash : (bytes : Bytes) → AreBytes bytes → NoDash (bytes_to_hex bytes)
unfolding bytes_to_hex
bytes_to_hex-NoDash [] h = tt
bytes_to_hex-NoDash (b ∷ bytes) (e, h) = (
  hex_char_digit (b / 16) (omega arith),
  (hex_char_digit (b % 16) (omega arith), bytes_to_hex-NoDash bytes h),
)

length-bytes_to_hex : (bytes : Bytes) → length (bytes_to_hex bytes) ≡ 2 * length bytes
unfolding bytes_to_hex
length-bytes_to_hex [] = refl
length-bytes_to_hex (b ∷ bytes) = omega (arith, length-bytes_to_hex bytes)

read-bytes_to_hex :
    (n : ℕ) (bytes : Bytes)
    → length bytes ≡ n
    → AreBytes bytes
    → read_bytes n (bytes_to_hex bytes) ≡ bytes
unfolding read_bytes bytes_to_hex
read-bytes_to_hex zero [] k h = refl
read-bytes_to_hex zero (b ∷ bytes) k h = absurd (omega (arith, k))
read-bytes_to_hex (suc n) [] k h = absurd (omega (arith, k))
read-bytes_to_hex (suc n) (b ∷ bytes) k (e, h) =
    rw (parse-hex_char b e, read-bytes_to_hex n bytes (omega (arith, k)) h)

buffer_to_sid-dashed :
    (buf : Bytes) → length buf ≡ 16 → buffer_to_sid buf ≡ dashed (bytes_to_hex buf)
unfolding buffer_to_sid
buffer_to_sid-dashed buf n = rw (n, take_all 16 buf (omega (arith, n)))

sid_to_buffer_ne : (sid : Str) → sid ≢ [] → sid_to_buffer sid ≡ read_bytes 16 (without_dashes sid)
unfolding sid_to_buffer
sid_to_buffer_ne sid ne = rw (beq_ne sid [] ne)

-- The sixteen bytes in front of a data frame are those that its id is written as.
pub sid_to_buffer-buffer_to_sid :
    (buf : Bytes) → length buf ≡ 16 → AreBytes buf → sid_to_buffer (buffer_to_sid buf) ≡ buf
sid_to_buffer-buffer_to_sid buf n h =
    let hex = bytes_to_hex buf in
    let len = length-bytes_to_hex buf ∙ ap (λ k. 2 * k) n in
    let plain = without_dashes-dashed hex (bytes_to_hex-NoDash buf h) len in
    ap sid_to_buffer (buffer_to_sid-dashed buf n)
    ∙ sid_to_buffer_ne (dashed hex) (dashed_ne hex len plain)
    ∙ ap (read_bytes 16) plain
    ∙ read-bytes_to_hex 16 buf n h
