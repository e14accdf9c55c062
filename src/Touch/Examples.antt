-- ===== src/Touch/Examples.antt =====
-- Concrete gestures.
use shells.Prelude.{◌≡◌, ◌⊎◌, refl, ◌++◌, ℕ, true, false, none, List, [], ◌∷◌, Str}
use shells.Layout.{grid}
use shells.Touch.{Point, Tracker, TouchEvent, touch_start, touch_move, touch_end, send_key, go_next}
use shells.Touch.Gesture.{run, run_lem}
use shells.Touch.Rotation.{Layouts, Window}

abbrev at : ℕ → ℕ → Point
at x y = record { x = x; y = y }

abbrev idle : Tracker
idle = record { start = at 0 0; start2 = at 0 0; multi_touch = false; two_finger_fired = false }

-- One finger swipes to the left.
swipe_left :
    (run idle (touch_start (at 300 80 ∷ []) ∷ (touch_end (at 120 90 ∷ []) 0 false false ∷ []))).1
    ≡ go_next ∷ []
unfolding run
swipe_left = refl

abbrev two_down : Tracker
two_down = record idle { start2 = at 400 400; multi_touch = true }

abbrev moves : List TouchEvent
moves =
    touch_move (at 200 200 ∷ (at 340 200 ∷ [])) false
    ∷ (touch_end (at 200 200 ∷ []) 1 false false ∷ [])

run_lem_example :
    ((run two_down (moves ++ touch_end (at 340 200 ∷ []) 0 false false ∷ [])).1 ≡ [])
    ⊎ ((key : Str) × ((run two_down (moves ++ touch_end (at 340 200 ∷ []) 0 false false ∷ [])).1
          ≡ send_key key ∷ []))
run_lem_example = run_lem two_down moves (at 340 200 ∷ []) 0 false false refl tt

abbrev desktop : Layouts
desktop = record { layout_mode = grid; saved = none }

abbrev phone : ℕ → ℕ → Window
phone width height = record { mobile = true; width = width; height = height }

abbrev wide : Window
wide = record { mobile = false; width = 1600; height = 900 }
