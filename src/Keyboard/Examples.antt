-- ===== src/Keyboard/Examples.antt =====
-- Concrete taps.
use shells.Prelude.{◌≡◌, refl, true, false, Bool, List, [], ◌∷◌, ◌++◌, codes, get_elem?}
use shells.Keyboard.{esc, page_up, seqs, Picker, tap_key, tap, or_nothing}
use shells.Keyboard.Taps.{shifts, taps, choice, taps_lem}

abbrev opened : Picker
opened = record { shift = false; ctrl = false; sent = [] }

-- Shift is tapped twice and Ctrl once.
abbrev mods : List Bool
mods = true ∷ (false ∷ (true ∷ []))

ctrl_page_up : (taps opened (shifts mods ++ tap_key page_up ∷ [])).sent ≡ (esc ∷ codes "[5;5~") ∷ []
unfolding tap
ctrl_page_up = refl

taps_lem_example : taps opened (shifts mods ++ tap_key page_up ∷ []) ≡ record {
  shift = false;
  ctrl = false;
  sent = [] ++ or_nothing (get_elem? (seqs page_up) (choice true false)) ∷ [];
}
taps_lem_example = taps_lem opened mods page_up
