-- ===== src/Keyboard/Taps.antt =====
-- What a sequence of taps sends, described from the terminal's side.
use shells.Prelude.{
  get_elem?, Bool-cases, inl, inr, ◌<◌, ◌≡◌, refl, ap, ◌∙◌, ℕ, Bool, true, false, not, List, [],
  ◌∷◌, ◌++◌, ◌-◌, Str, All, arith, Option, none, some,
}
use shells.Keyboard.{
  esc, Key, tab, left, up, right, down, home, end_key, page_up, page_down, del, ins, backspace,
  enter, seqs, combos, Picker, seq_index, Tap, tap_shift, tap_ctrl, tap_key, send_data, tap,
  or_nothing,
}

-- How a terminal tells a key: by the letter that ends its sequence, or by a number and a tilde.
pub data Coding : Type 0 where
  letter : ℕ → Coding
  number : ℕ → Coding

abbrev pub coding : Key → Option Coding
coding left = some (letter 68)
coding up = some (letter 65)
coding right = some (letter 67)
coding down = some (letter 66)
coding home = some (letter 72)
coding end_key = some (letter 70)
coding page_up = some (number 53)
coding page_down = some (number 54)
coding del = some (number 51)
coding ins = some (number 50)
coding _ = none

-- The sequences of xterm without a modifier, and with the modifier digit `m`.
abbrev pub plain : Coding → Str
plain (letter c) = esc ∷ (91 ∷ (c ∷ []))
plain (number n) = esc ∷ (91 ∷ (n ∷ (126 ∷ [])))

abbrev pub modified : ℕ → Coding → Str
modified m (letter c) = esc ∷ (91 ∷ (49 ∷ (59 ∷ (m ∷ (c ∷ [])))))
modified m (number n) = esc ∷ (91 ∷ (n ∷ (59 ∷ (m ∷ (126 ∷ [])))))

-- Without a modifier, with Shift and with Ctrl.
abbrev pub xterm : Coding → List Str
xterm c = plain c ∷ (modified 50 c ∷ (modified 53 c ∷ []))

some-injective : (c d : Coding) → some c ≡ some d → c ≡ d
some-injective c d h = cc h

-- Every key with a cursor or editing code sends xterm's sequence for it: without a modifier, with the
-- modifier digit 2 for Shift, and with 5 for Ctrl.
pub seqs_lem : (key : Key) (c : Coding) → coding key ≡ some c → seqs key ≡ xterm c
unfolding seqs
seqs_lem tab c h = absurd (cc h)
seqs_lem left c h = ap xterm (some-injective (letter 68) c h)
seqs_lem up c h = ap xterm (some-injective (letter 65) c h)
seqs_lem right c h = ap xterm (some-injective (letter 67) c h)
seqs_lem down c h = ap xterm (some-injective (letter 66) c h)
seqs_lem home c h = ap xterm (some-injective (letter 72) c h)
seqs_lem end_key c h = ap xterm (some-injective (letter 70) c h)
seqs_lem page_up c h = ap xterm (some-injective (number 53) c h)
seqs_lem page_down c h = ap xterm (some-injective (number 54) c h)
seqs_lem del c h = ap xterm (some-injective (number 51) c h)
seqs_lem ins c h = ap xterm (some-injective (number 50) c h)
seqs_lem backspace c h = absurd (cc h)
seqs_lem enter c h = absurd (cc h)

-- The taps on the modifiers.
abbrev pub shifts : List Bool → List Tap
shifts [] = []
shifts (true ∷ ms) = tap_shift ∷ shifts ms
shifts (false ∷ ms) = tap_ctrl ∷ shifts ms

abbrev pub taps : Picker → List Tap → Picker
taps p [] = p
taps p (t ∷ ts) = taps (tap p t) ts

-- Whether a modifier was tapped an odd number of times.
abbrev pub odd_of : Bool → List Bool → Bool
odd_of b [] = b
odd_of b (true ∷ ms) = odd_of (not b) ms
odd_of b (false ∷ ms) = odd_of b ms

abbrev pub flipped : List Bool → List Bool
flipped [] = []
flipped (m ∷ ms) = not m ∷ flipped ms

taps-shifts :
    (p : Picker) (ms : List Bool)
    → taps p (shifts ms) ≡ record p { shift = odd_of p.shift ms; ctrl = odd_of p.ctrl (flipped ms) }
unfolding tap
taps-shifts p [] = refl
taps-shifts p (true ∷ ms) = taps-shifts (record p { shift = not p.shift }) ms
taps-shifts p (false ∷ ms) = taps-shifts (record p { ctrl = not p.ctrl }) ms

taps-append : (p : Picker) (ts : List Tap) (t : Tap) → taps p (ts ++ t ∷ []) ≡ tap (taps p ts) t
taps-append p [] t = refl
taps-append p (u ∷ ts) t = taps-append (tap p u) ts t

abbrev pub choice : Bool → Bool → ℕ
choice true _ = 2
choice false true = 1
choice false false = 0

tap-key :
    (p : Picker) (key : Key)
    → tap p (tap_key key) ≡ send_data p (or_nothing (get_elem? (seqs key) (choice p.ctrl p.shift)))
unfolding tap seq_index
tap-key p key = elim (Bool-cases p.ctrl) [
  | inl e ↦ rw e
  | inr e ↦ elim (Bool-cases p.shift) [ inl f ↦ rw (e, f) | inr f ↦ rw (e, f) ]
]

-- Any taps on the modifiers and then one on a key send one sequence of the key and release both
-- modifiers. A modifier counts where it was on and tapped an even number of times, or off and tapped
-- an odd number of times; with Ctrl the sequence is the third of the key, else with Shift the second,
-- else the first.
pub taps_lem :
    (p : Picker) (ms : List Bool) (key : Key)
    → taps p (shifts ms ++ tap_key key ∷ []) ≡ record {
      shift = false;
      ctrl = false;
      sent =
          p.sent
          ++ or_nothing
              (get_elem? (seqs key) (choice (odd_of p.ctrl (flipped ms)) (odd_of p.shift ms)))
            ∷ [];
    }
unfolding send_data
taps_lem p ms key =
    taps-append p (shifts ms) (tap_key key)
    ∙ ap (λ q. tap q (tap_key key)) (taps-shifts p ms)
    ∙ tap-key (record p { shift = odd_of p.shift ms; ctrl = odd_of p.ctrl (flipped ms) }) key

-- Every button of `COMBOS` has one letter and sends its control character: the code of the letter
-- less 64.
pub combos_lem : All (λ c. (l : ℕ) × (c.0 ≡ l ∷ []) × (64 < l) × (c.1 ≡ (l - 64) ∷ [])) combos
unfolding combos
combos_lem = (
  (67, refl, omega arith, refl),
  (
    (68, refl, omega arith, refl),
    (
      (90, refl, omega arith, refl),
      (
        (76, refl, omega arith, refl),
        (
          (79, refl, omega arith, refl),
          (
            (82, refl, omega arith, refl),
            (
              (65, refl, omega arith, refl),
              (
                (69, refl, omega arith, refl),
                (
                  (75, refl, omega arith, refl),
                  (
                    (85, refl, omega arith, refl),
                    ((87, refl, omega arith, refl), ((88, refl, omega arith, refl), tt)),
                  ),
                ),
              ),
            ),
          ),
        ),
      ),
    ),
  ),
)
