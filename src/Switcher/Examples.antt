-- ===== src/Switcher/Examples.antt =====
-- A line of a prompt in two colours.
use shells.Prelude.{◌≡◌, refl, true, Option, none, some, List, [], ◌∷◌, codes, All}
use shells.Switcher.{palette, Format, Cell, plain, get_color_css, capture_line}
use shells.Switcher.Captured.{shade, paint_segments, IsFilled, capture_line_lem}

abbrev green : Format
green = record { fg = some 2; bg = none; bold = true }

abbrev line : List (Option Cell)
line =
    some (record { format = green; chars = codes "$" })
    ∷ (none ∷ (some (record { format = plain; chars = codes "l" }) ∷ []))

capture_line_lem_example :
    (paint_segments (capture_line line)
      ≡ (36, shade green) ∷ ((32, shade green) ∷ ((108, shade plain) ∷ [])))
    × All IsFilled (capture_line line)
capture_line_lem_example = capture_line_lem line

green-shade : shade green ≡ (some (palette 2), none, true)
unfolding get_color_css
green-shade = refl
