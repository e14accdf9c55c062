-- ===== src/Paste/Caption.antt =====
-- The caption of a pasted image in `_handleTerminalPaste` of `public/js/shell/paste.js`, on UTF-16 code
-- units: the regular expression has no flag `u`, so it matches single code units.
use shells.Prelude.{
  ℕ, zero, suc, ◌+◌, ◌≤◌, ◌≡◌, ◌≢◌, refl, ap, ◌∙◌, Bool, true, false, ◌&&◌, ◌||◌, List, [], ◌∷◌,
  Str, codes, ◌==◌, nat_eq, if◌then◌else◌, leb, All, arith,
}
use shells.Recents.Commands.{is_space}
use shells.Backends.Text.{trim, trim_start}
use shells.Backends.Labels.{Ends, trim-clean}

-- The code units of the two camera emojis, whose first one is the same.
abbrev pub first_unit : ℕ
first_unit = 0xD83D

abbrev pub camera : ℕ
camera = 0xDCF7

abbrev pub flash_camera : ℕ
flash_camera = 0xDCF8

abbrev pub is_camera_unit : ℕ → Bool
is_camera_unit c = c == first_unit || c == camera || c == flash_camera

-- `[Image]`, in lower or upper case.
abbrev pub lower : ℕ → ℕ
lower c = if leb 65 c && leb c 90 then c + 32 else c

unfoldable pub starts_image : Str → Str → Bool
starts_image s [] = true
starts_image [] (d ∷ t) = false
starts_image (c ∷ s) (d ∷ t) = lower c == d && starts_image s t

-- `text.replace(…, '')`; `skip` characters belong to a match that has begun.
unfoldable pub strip : ℕ → Str → Str
unfolding starts_image
strip skip [] = []
strip (suc n) (c ∷ s) = strip n s
strip zero (c ∷ s) =
    let rest = strip 0 s in
    let matched = strip 6 s in
    if is_camera_unit c
    then rest
    else if starts_image (c ∷ s) (codes "[image]")
    then matched
    else c ∷ rest

unfoldable pub clean_caption : Str → Str
unfolding strip trim
clean_caption text = trim (strip 0 text)

-- Emojis whose first code unit is that of the cameras, by their second ones.
abbrev pub emojis : List ℕ → Str
emojis [] = []
emojis (c ∷ cs) = first_unit ∷ (c ∷ emojis cs)

-- A second code unit, but not that of a camera.
abbrev pub IsOther : ℕ → Type 0
IsOther c = (0xDC00 ≤ c) × (c ≤ 0xDFFF) × (c ≢ camera) × (c ≢ flash_camera)

strip-other : (c : ℕ) (s : Str) → IsOther c → strip 0 (first_unit ∷ (c ∷ s)) ≡ c ∷ strip 0 s
unfolding strip starts_image
strip-other c s (a, b, n, m) = ground arith

strip-emojis : (cs : List ℕ) → All IsOther cs → strip 0 (emojis cs) ≡ cs
unfolding strip
strip-emojis [] h = refl
strip-emojis (c ∷ cs) (o, h) = strip-other c (emojis cs) o ∙ ap (c ∷◌) (strip-emojis cs h)

Ends-other : (c : ℕ) (cs : List ℕ) → All IsOther (c ∷ cs) → Ends (c ∷ cs)
unfolding is_space
Ends-other c [] ((a, b, n, m), h) = ground arith
Ends-other c (d ∷ cs) (o, h) = Ends-other d cs h

is_space-other : (c : ℕ) → IsOther c → is_space c ≡ false
unfolding is_space
is_space-other c (a, b, n, m) = ground arith

-- A caption of emojis that share their first code unit with the cameras, but are none, is not left as
-- it is: of each one the second code unit alone is kept, which is no character.
pub clean_caption-emojis : (cs : List ℕ) → All IsOther cs → clean_caption (emojis cs) ≡ cs
unfolding clean_caption trim trim_start
clean_caption-emojis [] h = refl
clean_caption-emojis (c ∷ cs) (o, h) =
    ap trim (strip-emojis (c ∷ cs) (o, h))
    ∙ trim-clean c cs (is_space-other c o) (Ends-other c cs (o, h))
