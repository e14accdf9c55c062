-- ===== src/Grid/Dragged.antt =====
-- What a drag does to the tracks.
use shells.Prelude.{ℕ, zero, suc, ◌+◌, ◌≤◌, ◌≡◌, refl, List, [], ◌∷◌, All, arith, length}
use shells.Grid.{Axis, column, row, Drag, first_size, drag_sizes, on_window_mouse_move}

abbrev pub total : List ℕ → ℕ
total [] = 0
total (t ∷ ts) = t + total ts

-- A track has its least size.
abbrev pub IsWide : ℕ → Type 0
IsWide t = 50 ≤ t

-- The sum, the number of the tracks, and their least size.
abbrev Fits : List ℕ → List ℕ → Type 0
Fits old new = (total new ≡ total old) × (length new ≡ length old) × All IsWide new

drag_sizes-Fits :
    (n : ℕ) (ts : List ℕ) (start_pos pos : ℕ)
    → All IsWide ts
    → Fits ts (drag_sizes n ts start_pos pos)
unfolding drag_sizes first_size
drag_sizes-Fits n [] start_pos pos h = (refl, refl, tt)
drag_sizes-Fits n (a ∷ []) start_pos pos h = (refl, refl, h)
drag_sizes-Fits zero (a ∷ (b ∷ ts)) start_pos pos (p, (q, h)) =
    (omega arith, refl, (omega arith, (omega arith, h)))
drag_sizes-Fits (suc n) (a ∷ (b ∷ ts)) start_pos pos (p, h) =
    let (t, l, w) = drag_sizes-Fits n (b ∷ ts) start_pos pos h in
    (omega (arith, t), omega (arith, l), (p, w))

-- Wherever the pointer is dragged to, the tracks fill the same space as at the start of the drag, none is
-- lost, and none is narrower than 50 pixels, where none was at the start.
pub on_window_mouse_move_lem :
    (d : Drag) (x y : ℕ)
    → All IsWide d.start_sizes
    → (total (on_window_mouse_move d x y) ≡ total d.start_sizes)
      × (length (on_window_mouse_move d x y) ≡ length d.start_sizes)
      × All IsWide (on_window_mouse_move d x y)
unfolding on_window_mouse_move
on_window_mouse_move_lem d x y h = along d.axis
  where
    along :
        (axis : Axis)
        → Fits d.start_sizes (elim axis [
          | column ↦ drag_sizes d.track1 d.start_sizes d.start_pos x
          | row ↦ drag_sizes d.track1 d.start_sizes d.start_pos y
        ])
    along column = drag_sizes-Fits d.track1 d.start_sizes d.start_pos x h
    along row = drag_sizes-Fits d.track1 d.start_sizes d.start_pos y h
