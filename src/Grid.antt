-- ===== src/Grid.antt =====
-- The drag of a line between two tracks of the grid: public/js/grid-resizer.js. Coordinates and sizes are
-- whole pixels; the position of a line is kept doubled, so that half of the gap is not lost.
pub mod Dragged
mod Examples
use shells.Prelude.{
  ℕ, zero, suc, ◌+◌, ◌-◌, ◌*◌, min, max, Bool, true, false, ◌&&◌, Option, none, some, List, [], ◌∷◌,
  if◌then◌else◌, leb, eqb, not,
}

pub data Axis : Type 0 where
  column : Axis
  row : Axis

pub record Line : Type 0 where
  pub index : ℕ
  pub doubled_pos : ℕ

-- `getLines`, from a place on: a line behind every track but the last.
unfoldable pub get_lines : ℕ → ℕ → ℕ → List ℕ → List Line
get_lines index current gap [] = []
get_lines index current gap (t ∷ []) = []
get_lines index current gap (t ∷ (u ∷ ts)) =
    record { index = index; doubled_pos = 2 * (current + t) + gap }
    ∷ get_lines (suc index) (current + t + gap) gap (u ∷ ts)

-- `Math.abs(x - line.pos) <= this.threshold`
abbrev pub is_near : ℕ → Line → Bool
is_near x l = leb ((2 * x - l.doubled_pos) + (l.doubled_pos - 2 * x)) 12

unfoldable pub find_near : ℕ → List Line → Option ℕ
find_near x [] = none
find_near x (l ∷ ls) = if is_near x l then some l.index else find_near x ls

-- The sizes of the columns or the rows, with the padding before them.
pub record Tracks : Type 0 where
  pub padding : ℕ
  pub sizes : List ℕ

unfoldable pub line_at : ℕ → ℕ → Tracks → Option ℕ
unfolding find_near get_lines
line_at x gap t = find_near x (get_lines 0 t.padding gap t.sizes)

-- `getHoverLine`: the columns come first.
unfoldable pub get_hover_line : ℕ → ℕ → ℕ → Tracks → Tracks → Option (Axis × ℕ)
unfolding line_at
get_hover_line x y gap columns rows = elim (line_at x gap columns) [
  | some i ↦ some (column, i)
  | none ↦ elim (line_at y gap rows) [ some i ↦ some (row, i) | none ↦ none ]
]

-- `this.dragging`; the second track is the next one.
pub record Drag : Type 0 where
  pub axis : Axis
  pub start_pos : ℕ
  pub start_sizes : List ℕ
  pub track1 : ℕ

-- The pointer in the window, and the corner of the grid, which it is not before.
pub record Pointer : Type 0 where
  pub x : ℕ
  pub y : ℕ
  pub left : ℕ
  pub top : ℕ

-- `onMouseDown`: the line is looked for in the grid, the drag starts in the window.
unfoldable pub on_mouse_down : ℕ → Pointer → ℕ → Tracks → Tracks → Option Drag
unfolding get_hover_line
on_mouse_down button p gap columns rows =
    if not (eqb button 0)
    then none
    else elim (get_hover_line (p.x - p.left) (p.y - p.top) gap columns rows) [
      | none ↦ none
      | some hover ↦ some (elim hover.0 [
        | column ↦ record {
          axis = column;
          start_pos = p.x;
          start_sizes = columns.sizes;
          track1 = hover.1;
        }
        | row ↦ record { axis = row; start_pos = p.y; start_sizes = rows.sizes; track1 = hover.1 }
      ])
    ]

-- `newSizes[track1] + boundedDelta`: with the least size 50, `Math.max(minDelta, Math.min(maxDelta, …))`
-- added to the size. What is below zero here is raised to 50 by the code, too.
unfoldable pub first_size : ℕ → ℕ → ℕ → ℕ → ℕ
first_size a b start_pos pos = max 50 (min ((a + b) - 50) ((a + pos) - start_pos))

-- The new sizes; the tracks before the two are skipped. The second size is below zero in the code, and
-- zero here, where both tracks together are narrower than 50.
unfoldable pub drag_sizes : ℕ → List ℕ → ℕ → ℕ → List ℕ
unfolding first_size
drag_sizes n [] start_pos pos = []
drag_sizes n (a ∷ []) start_pos pos = a ∷ []
drag_sizes zero (a ∷ (b ∷ ts)) start_pos pos =
    first_size a b start_pos pos ∷ (((a + b) - first_size a b start_pos pos) ∷ ts)
drag_sizes (suc n) (a ∷ (b ∷ ts)) start_pos pos = a ∷ drag_sizes n (b ∷ ts) start_pos pos

-- `onWindowMouseMove`
unfoldable pub on_window_mouse_move : Drag → ℕ → ℕ → List ℕ
unfolding drag_sizes
on_window_mouse_move d x y = elim d.axis [
  | column ↦ drag_sizes d.track1 d.start_sizes d.start_pos x
  | row ↦ drag_sizes d.track1 d.start_sizes d.start_pos y
]
