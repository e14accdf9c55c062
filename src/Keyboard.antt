-- ===== src/Keyboard.antt =====
-- The special keys of the touch keyboard: `public/js/keyboard-picker.js`.
pub mod Taps
mod Examples
use shells.Prelude.{
  ℕ, Bool, true, false, not, List, [], ◌∷◌, ◌++◌, if◌then◌else◌, Str, codes, get_elem?, Option,
  none, some,
}

-- The escape character.
abbrev pub esc : ℕ
esc = 27

pub data Key : Type 0 where
  tab : Key
  left : Key
  up : Key
  right : Key
  down : Key
  home : Key
  end_key : Key
  page_up : Key
  page_down : Key
  del : Key
  ins : Key
  backspace : Key
  enter : Key

-- `KEYS`: what a key sends alone, with Shift and with Ctrl.
unfoldable pub seqs : Key → List Str
seqs tab = codes "\t" ∷ ((esc ∷ codes "[Z") ∷ (codes "\t" ∷ []))
seqs left = (esc ∷ codes "[D") ∷ ((esc ∷ codes "[1;2D") ∷ ((esc ∷ codes "[1;5D") ∷ []))
seqs up = (esc ∷ codes "[A") ∷ ((esc ∷ codes "[1;2A") ∷ ((esc ∷ codes "[1;5A") ∷ []))
seqs right = (esc ∷ codes "[C") ∷ ((esc ∷ codes "[1;2C") ∷ ((esc ∷ codes "[1;5C") ∷ []))
seqs down = (esc ∷ codes "[B") ∷ ((esc ∷ codes "[1;2B") ∷ ((esc ∷ codes "[1;5B") ∷ []))
seqs home = (esc ∷ codes "[H") ∷ ((esc ∷ codes "[1;2H") ∷ ((esc ∷ codes "[1;5H") ∷ []))
seqs end_key = (esc ∷ codes "[F") ∷ ((esc ∷ codes "[1;2F") ∷ ((esc ∷ codes "[1;5F") ∷ []))
seqs page_up = (esc ∷ codes "[5~") ∷ ((esc ∷ codes "[5;2~") ∷ ((esc ∷ codes "[5;5~") ∷ []))
seqs page_down = (esc ∷ codes "[6~") ∷ ((esc ∷ codes "[6;2~") ∷ ((esc ∷ codes "[6;5~") ∷ []))
seqs del = (esc ∷ codes "[3~") ∷ ((esc ∷ codes "[3;2~") ∷ ((esc ∷ codes "[3;5~") ∷ []))
seqs ins = (esc ∷ codes "[2~") ∷ ((esc ∷ codes "[2;2~") ∷ ((esc ∷ codes "[2;5~") ∷ []))
seqs backspace = (127 ∷ []) ∷ ((127 ∷ []) ∷ ((8 ∷ []) ∷ []))
seqs enter = (13 ∷ []) ∷ ((13 ∷ []) ∷ ((13 ∷ []) ∷ []))

-- `COMBOS`: the label and the character that is sent.
unfoldable pub combos : List (Str × Str)
combos =
    (codes "C", 3 ∷ [])
    ∷ ((codes "D", 4 ∷ [])
        ∷ ((codes "Z", 26 ∷ [])
            ∷ ((codes "L", 12 ∷ [])
                ∷ ((codes "O", 15 ∷ [])
                    ∷ ((codes "R", 18 ∷ [])
                        ∷ ((codes "A", 1 ∷ [])
                            ∷ ((codes "E", 5 ∷ [])
                                ∷ ((codes "K", 11 ∷ [])
                                    ∷ ((codes "U", 21 ∷ [])
                                        ∷ ((codes "W", 23 ∷ [])
                                            ∷ ((codes "X", 24 ∷ []) ∷ [])))))))))))

-- The two modifiers, and what was sent to the active session.
pub record Picker : Type 0 where
  pub shift : Bool
  pub ctrl : Bool
  pub sent : List Str

unfoldable pub seq_index : Picker → ℕ
seq_index p = if p.ctrl then 2 else if p.shift then 1 else 0

-- A button of the picker.
pub data Tap : Type 0 where
  tap_shift : Tap
  tap_ctrl : Tap
  tap_esc : Tap
  tap_key : Key → Tap
  tap_combo : Str → Tap

unfoldable pub open_picker : List Str → Picker
open_picker sent = record { shift = false; ctrl = false; sent = sent }

-- What is sent, after which the modifiers are released.
unfoldable pub send_data : Picker → Str → Picker
send_data p text = record { shift = false; ctrl = false; sent = p.sent ++ text ∷ [] }

abbrev pub or_nothing : Option Str → Str
or_nothing none = []
or_nothing (some text) = text

unfoldable pub tap : Picker → Tap → Picker
unfolding send_data seqs seq_index
tap p tap_shift = record p { shift = not p.shift }
tap p tap_ctrl = record p { ctrl = not p.ctrl }
tap p tap_esc = send_data p (esc ∷ [])
tap p (tap_key key) = send_data p (or_nothing (get_elem? (seqs key) (seq_index p)))
tap p (tap_combo text) = send_data p text
