-- ===== src/Settings.antt =====
-- The font size of the terminals: `_getFontSize`, `fontZoomDelta` and `setFontSize` of
-- `public/js/shell-sessions.js`.
pub mod Range
mod Examples
use shells.Prelude.{
  ℕ, Bool, true, false, ◌&&◌, ◌||◌, not, ◌+◌, ◌-◌, min, max, Option, none, some, List, [], ◌∷◌,
  if◌then◌else◌, leb, eqb, ltb, map,
}

-- The size in memory, the number that the storage holds, and the size of every terminal.
pub record Fonts : Type 0 where
  pub font_size : Option ℕ
  pub stored : Option ℕ
  pub terms : List ℕ

-- The size that `_getFontSize` reads from the storage.
unfoldable pub read_size : Option ℕ → ℕ
read_size none = 14
read_size (some s) = if leb 8 s && leb s 32 then s else 14

-- `_getFontSize`, which keeps what it has read.
unfoldable pub get_font_size : Fonts → ℕ
unfolding read_size
get_font_size f = elim f.font_size [ none ↦ read_size f.stored | some v ↦ v ]

-- A difference of sizes.
pub data Delta : Type 0 where
  more : ℕ → Delta
  less : ℕ → Delta

-- `size + delta`, which is below 0 only where the bound 8 is taken instead.
unfoldable pub shifted : ℕ → Delta → ℕ
shifted size (more n) = size + n
shifted size (less n) = size - n

unfoldable pub clamp : ℕ → ℕ
clamp n = max 8 (min 32 n)

unfoldable pub set_font_size : Fonts → Delta → Fonts
unfolding get_font_size shifted clamp
set_font_size f delta =
    let next = clamp (shifted (get_font_size f) delta) in
    if eqb next (get_font_size f)
    then record f { font_size = some (get_font_size f) }
    else record { font_size = some next; stored = some next; terms = map (λ _. next) f.terms }

-- The keys that `fontZoomDelta` tells apart, and the modifiers of the event.
pub data ZoomKey : Type 0 where
  key_plus : ZoomKey
  key_equals : ZoomKey
  key_minus : ZoomKey
  key_zero : ZoomKey
  key_other : ZoomKey

unfoldable pub zoom_of : Fonts → ZoomKey → Option Delta
unfolding get_font_size
zoom_of f key_plus = some (more 1)
zoom_of f key_equals = some (more 1)
zoom_of f key_minus = some (less 1)
zoom_of f key_zero =
    some (
      if leb (get_font_size f) 14 then more (14 - get_font_size f) else less (get_font_size f - 14))
zoom_of f key_other = none

unfoldable pub font_zoom_delta : Fonts → Bool → Bool → Bool → ZoomKey → Option Delta
unfolding zoom_of
font_zoom_delta f ctrl meta alt key = if not (ctrl || meta) || alt then none else zoom_of f key
