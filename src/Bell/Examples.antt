-- ===== src/Bell/Examples.antt =====
-- Histories of one session.
use shells.Prelude.{◌≡◌, refl, false, List, [], ◌∷◌, arith}
use shells.Bell.{Run, Client, output, second, bel, Entry, new, step, sounds}
use shells.Bell.Cooldown.{IsSpaced, sounds-IsSpaced}
use shells.Bell.Runs.{entry, sounds_run}

abbrev background : Client
background = record { bell_suppressed = false; is_active = false }

-- An agent that redraws every two seconds for eight seconds.
abbrev redraws : List Entry
redraws =
    entry background 22_000 output
    ∷ entry background 23_000 second
    ∷ entry background 24_000 output
    ∷ entry background 26_000 output
    ∷ entry background 28_000 output
    ∷ []

abbrev agent : List Entry
agent =
    entry background 20_000 output
    ∷ entry background 22_000 output
    ∷ entry background 23_000 second
    ∷ entry background 24_000 output
    ∷ entry background 26_000 output
    ∷ entry background 28_000 output
    ∷ entry background 31_000 second
    ∷ entry background 32_000 second
    ∷ []

agent_rings : sounds (new 10_000) agent ≡ 31_000 ∷ []
unfolding sounds step
agent_rings = refl

abbrev beeps : List Entry
beeps = entry background 14_000 bel ∷ entry background 14_100 bel ∷ entry background 15_600 bel ∷ []

sounds-IsSpaced_example : IsSpaced 13_000 (sounds (new 10_000) beeps)
sounds-IsSpaced_example = sounds-IsSpaced (new 10_000) beeps

abbrev watch : List Entry
watch =
    entry background 20_000 output
    ∷ entry background 23_000 second
    ∷ entry background 25_000 output
    ∷ entry background 30_000 output
    ∷ entry background 40_000 second
    ∷ []

sounds_run_example : sounds (new 10_000) agent ≡ 31_000 ∷ []
sounds_run_example =
    sounds_run (new 10_000) background background 20_000 31_000 redraws
      (entry background 32_000 second ∷ []) refl (omega arith) (omega arith) (ground arith)
      (omega arith) refl (omega arith) (refl, tt)

-- The user answered at 29 seconds.
abbrev answered : Run
answered = record {
  run_start = 20_000;
  last_output_at = 28_000;
  last_input_at = 29_000;
  suppress_bell_until = 13_000;
  bell_latched = false;
  busy = false;
}
