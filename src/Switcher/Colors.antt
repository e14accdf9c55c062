-- ===== src/Switcher/Colors.antt =====
-- The colours of a preview, and its first line.
use shells.Prelude.{
  ℕ, zero, suc, ◌≢◌, ◌↔◌, leb, leb→le, lt→ltb, subst, ◌+◌, ◌-◌, ◌*◌, ◌/◌, ◌%◌, ◌≤◌, ◌<◌, ◌≡◌, inl,
  inr, true, false, Option, none, some, List, [], ◌∷◌, if◌then◌else◌, ltb, take, drop, Bool-cases,
  arith,
}
use shells.Switcher.{
  Css, palette, hex, rgb, level, color_css, Cell, Segment, is_blank, capture_lines, found_content,
  drop_blank, capture_preview,
}

-- Every part of a colour is a byte, and the table is not left.
abbrev pub IsValid : Css → Type 0
IsValid (palette i) = i < 16
IsValid (hex r g b) = (r < 256) × (g < 256) × (b < 256)
IsValid (rgb r g b) = (r < 256) × (g < 256) × (b < 256)

level_le : (v : ℕ) → v ≤ 5 → level v < 256
unfolding level
level_le zero h = omega arith
level_le (suc v) h = omega arith

-- Every number is turned into a colour of the style sheet whose parts are within their bounds.
color_css-IsValid : (color : ℕ) → IsValid (color_css color)
unfolding color_css
color_css-IsValid color = elim (Bool-cases (ltb color 16)) [
  | inl e ↦ rw e (ground arith)
  | inr e ↦ elim (Bool-cases (ltb color 232)) [
    | inl f ↦
        rw (e, f)
          (
            level_le ((color - 16) / 36) (ground arith),
            level_le ((color - 16) % 36 / 6) (omega arith),
            level_le ((color - 16) % 6) (omega arith),
          )
    | inr f ↦ elim (Bool-cases (ltb color 256)) [
      | inl g ↦ rw (e, f, g) (ground arith, ground arith, ground arith)
      | inr g ↦ rw (e, f, g) (omega arith, omega arith, omega arith)
    ]
  ]
]

abbrev pub pack : ℕ → ℕ → ℕ → ℕ
pack r g b = r * 65536 + g * 256 + b

rgb_cong : {a b c d e f : ℕ} → a ≡ d → b ≡ e → c ≡ f → rgb a b c ≡ rgb d e f
rgb_cong p q r = cc

unpacked :
    (r g b : ℕ) → r < 256 → g < 256 → b < 256 → 1 ≤ r + g → color_css (pack r g b) ≡ rgb r g b
unfolding color_css
unpacked r g b hr hg hb h =
    rw (lt_false 16 (omega arith), lt_false 232 (omega arith), lt_false 256 (omega arith))
      (rgb_cong (omega arith) (omega arith) (omega arith))
  where
    lt_false : (n : ℕ) → n ≤ pack r g b → ltb (pack r g b) n ≡ false
    lt_false n l = ground arith

-- A colour of the table or of six digits is none of three bytes.
indexed : (color r g b : ℕ) → color < 256 → color_css color ≢ rgb r g b
unfolding color_css
indexed color r g b h = elim (Bool-cases (ltb color 16)) [
  | inl e ↦ rw e (λ p. cc)
  | inr e ↦ elim (Bool-cases (ltb color 232)) [
    | inl f ↦ rw (e, f) (λ p. cc)
    | inr f ↦ rw (e, f, lt→ltb color 256 h) (λ p. cc)
  ]
]

-- A colour of three bytes, packed into one number, is shown as these bytes exactly where it has a red or
-- a green part: a pure blue is taken for an index.
pub color_css-pack :
    (r g b : ℕ) → r < 256 → g < 256 → b < 256 → (color_css (pack r g b) ≡ rgb r g b) ↔ (1 ≤ r + g)
color_css-pack r g b hr hg hb = (there, unpacked r g b hr hg hb)
  where
    there : color_css (pack r g b) ≡ rgb r g b → 1 ≤ r + g
    there p = elim (Bool-cases (leb 1 (r + g))) [
      | inl e ↦ leb→le 1 (r + g) e
      | inr e ↦ absurd (indexed (pack r g b) r g b (ground arith) p)
    ]

-- Lines one of which is not blank do not begin with a blank one when they are shown.
abbrev pub StartsFilled : List (List Segment) → Type 0
StartsFilled [] = ⊥
StartsFilled (l ∷ ls) = is_blank l ≡ false

drop_blank-StartsFilled :
    (ls : List (List Segment)) → found_content ls ≡ true → StartsFilled (drop_blank ls)
unfolding drop_blank found_content
drop_blank-StartsFilled [] h = cc
drop_blank-StartsFilled (l ∷ []) h = ground arith
drop_blank-StartsFilled (l ∷ (m ∷ ls)) h = elim (Bool-cases (is_blank l)) [
  | inl e ↦ rw e (drop_blank-StartsFilled (m ∷ ls) (rw e at h))
  | inr e ↦ rw e e
]

-- A preview that is shown begins with a line that is not blank.
pub capture_preview-StartsFilled :
    (buffer : List (Option (List (Option Cell)))) (viewport_y : ℕ) (ls : List (List Segment))
    → capture_preview buffer viewport_y ≡ some ls
    → StartsFilled ls
unfolding capture_preview
capture_preview-StartsFilled buffer viewport_y ls h =
    shown (capture_lines (take 32 (drop viewport_y buffer))) h
  where
    some_inj : {u v : List (List Segment)} → some u ≡ some v → u ≡ v
    some_inj p = cc

    none_some : {v : List (List Segment)} → none ≡ some v → ⊥
    none_some p = cc

    shown :
        (lines : List (List Segment))
        → if◌then◌else◌ {A = Option (List (List Segment))}
            (found_content lines)
            (some (drop_blank lines))
            none
          ≡ some ls
        → StartsFilled ls
    shown lines e = elim (Bool-cases (found_content lines)) [
      | inl f ↦ subst StartsFilled (some_inj (rw f at e)) (drop_blank-StartsFilled lines f)
      | inr f ↦ absurd (none_some (rw f at e))
    ]
