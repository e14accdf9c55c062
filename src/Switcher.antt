-- ===== src/Switcher.antt =====
-- The previews of the mobile switcher: `_capturePreview` of public/js/switcher.js. The cells of the
-- terminal are xterm's: a missing cell is none, and so is the default colour, which is -1 there.
pub mod Captured
pub mod Colors
mod Examples
use shells.Prelude.{
  ℕ, zero, suc, ◌+◌, ◌-◌, ◌*◌, ◌/◌, ◌%◌, Bool, true, false, ◌&&◌, ◌||◌, not, Option, none, some,
  List, [], ◌∷◌, ◌++◌, Str, ◌==◌, str_eq, nat_eq, opt_eqb, if◌then◌else◌, ltb, take, drop,
}
use shells.Connection.Handshake.{all_space}

pub record Format : Type 0 where
  pub fg : Option ℕ
  pub bg : Option ℕ
  pub bold : Bool

pub record Cell : Type 0 where
  pub format : Format
  pub chars : Str

-- A colour of the style sheet: one of the table of sixteen, six hexadecimal digits, or `rgb(…)`.
pub data Css : Type 0 where
  palette : ℕ → Css
  hex : ℕ → ℕ → ℕ → Css
  rgb : ℕ → ℕ → ℕ → Css

-- `v === 0 ? 0 : v * 40 + 55`
unfoldable pub level : ℕ → ℕ
level zero = 0
level (suc v) = suc v * 40 + 55

-- An index or a colour of 24 bits, which the code tells apart by its size.
unfoldable pub color_css : ℕ → Css
unfolding level
color_css color =
    if ltb color 16
    then palette color
    else if ltb color 232
    then hex (level ((color - 16) / 36)) (level ((color - 16) % 36 / 6)) (level ((color - 16) % 6))
    else if ltb color 256
    then hex ((color - 232) * 10 + 8) ((color - 232) * 10 + 8) ((color - 232) * 10 + 8)
    else rgb (color / 65536 % 256) (color / 256 % 256) (color % 256)

-- `getColorCSS`
unfoldable pub get_color_css : Option ℕ → Option Css
unfolding color_css
get_color_css none = none
get_color_css (some color) = some (color_css color)

pub record Segment : Type 0 where
  pub text : Str
  pub fg : Option Css
  pub bg : Option Css
  pub bold : Bool

-- The variables of the loop over the cells of a line.
pub record Capture : Type 0 where
  pub segments : List Segment
  pub current : Str
  pub last : Format

abbrev pub plain : Format
plain = record { fg = none; bg = none; bold = false }

abbrev pub bool_eqb : Bool → Bool → Bool
bool_eqb true b = b
bool_eqb false b = not b

abbrev pub format_eqb : Format → Format → Bool
format_eqb f g = opt_eqb f.fg g.fg && opt_eqb f.bg g.bg && bool_eqb f.bold g.bold

-- `if (currentText) lineSegments.push(…)`
unfoldable pub flush : Capture → List Segment
unfolding get_color_css
flush s =
    if s.current == []
    then s.segments
    else s.segments
      ++ record {
        text = s.current;
        fg = get_color_css s.last.fg;
        bg = get_color_css s.last.bg;
        bold = s.last.bold;
      }
        ∷ []

-- `cell.getChars() || ' '`
abbrev pub chars_of : Str → Str
chars_of [] = 32 ∷ []
chars_of (c ∷ s) = c ∷ s

unfoldable pub on_cell : Capture → Option Cell → Capture
unfolding flush
on_cell s none = record s { current = s.current ++ 32 ∷ [] }
on_cell s (some cell) =
    if format_eqb cell.format s.last
    then record s { current = s.current ++ chars_of cell.chars }
    else record { segments = flush s; current = chars_of cell.chars; last = cell.format }

unfoldable pub capture_cells : Capture → List (Option Cell) → List Segment
unfolding on_cell flush
capture_cells s [] = flush s
capture_cells s (c ∷ cs) = capture_cells (on_cell s c) cs

unfoldable pub capture_line : List (Option Cell) → List Segment
unfolding capture_cells
capture_line cells = capture_cells (record { segments = []; current = []; last = plain }) cells

-- `lineSegments.every(s => s.text.trim() === '')`
unfoldable pub is_blank : List Segment → Bool
unfolding all_space
is_blank [] = true
is_blank (s ∷ ss) = all_space s.text && is_blank ss

-- The lines of the buffer that are there.
unfoldable pub capture_lines : List (Option (List (Option Cell))) → List (List Segment)
unfolding capture_line
capture_lines [] = []
capture_lines (none ∷ ls) = capture_lines ls
capture_lines (some l ∷ ls) = capture_line l ∷ capture_lines ls

unfoldable pub found_content : List (List Segment) → Bool
unfolding is_blank
found_content [] = false
found_content (l ∷ ls) = not (is_blank l) || found_content ls

-- The loop that takes blank lines from the front, but leaves one.
unfoldable pub drop_blank : List (List Segment) → List (List Segment)
unfolding is_blank
drop_blank [] = []
drop_blank (l ∷ []) = l ∷ []
drop_blank (l ∷ (m ∷ ls)) =
    let rest = drop_blank (m ∷ ls) in if is_blank l then rest else l ∷ (m ∷ ls)

-- `_capturePreview` of a buffer, from its line `viewport_y` on.
unfoldable pub capture_preview :
    List (Option (List (Option Cell))) → ℕ → Option (List (List Segment))
unfolding capture_lines found_content drop_blank
capture_preview buffer viewport_y =
    let lines = capture_lines (take 32 (drop viewport_y buffer)) in
    if found_content lines then some (drop_blank lines) else none
