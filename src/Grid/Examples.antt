-- ===== src/Grid/Examples.antt =====
-- Three columns, with a drag of the line between the first two.
use shells.Prelude.{◌≡◌, refl, [], ◌∷◌, some, All, length, arith}
use shells.Grid.{Drag, column, on_window_mouse_move, on_mouse_down, Pointer, Tracks}
use shells.Grid.Dragged.{IsWide, total, on_window_mouse_move_lem}

abbrev columns : Tracks
columns = record { padding = 4; sizes = 300 ∷ 200 ∷ 100 ∷ [] }

abbrev rows : Tracks
rows = record { padding = 4; sizes = 600 ∷ [] }

abbrev drag : Drag
drag = record { axis = column; start_pos = 316; start_sizes = 300 ∷ 200 ∷ 100 ∷ []; track1 = 0 }

abbrev pointer : Pointer
pointer = record { x = 316; y = 70; left = 10; top = 50 }

started : on_mouse_down 0 pointer 2 columns rows ≡ some drag
unfolding on_mouse_down
started = refl

dragged : on_window_mouse_move drag 900 20 ≡ 450 ∷ 50 ∷ 100 ∷ []
unfolding on_window_mouse_move
dragged = refl

on_window_mouse_move_lem_example :
    (total (on_window_mouse_move drag 900 20) ≡ 600)
    × (length (on_window_mouse_move drag 900 20) ≡ 3)
    × All IsWide (on_window_mouse_move drag 900 20)
on_window_mouse_move_lem_example =
    on_window_mouse_move_lem drag 900 20 (omega arith, (omega arith, (omega arith, tt)))
