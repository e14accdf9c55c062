-- ===== src/Bell/Cooldown.antt =====
-- `BELL_COOLDOWN_MS`: how often the sound is played.
use shells.Prelude.{ℕ, ◌+◌, ◌≤◌, ◌≡◌, true, false, List, [], ◌∷◌, arith, inl, inr, Bool-cases}
use shells.Bell.{Run, Client, Event, Entry, bell_cooldown_ms, step, sounds}

-- The first time is not before `b`, and each later one a cooldown after the one before it.
abbrev pub IsSpaced : ℕ → List ℕ → Type 0
IsSpaced b [] = Unit
IsSpaced b (t ∷ ts) = (b ≤ t) × IsSpaced (t + bell_cooldown_ms) ts

suppress-step :
    (c : Client) (s : Run) (now : ℕ) (e : Event)
    → (step c s now e).1 ≡ false
    → (step c s now e).0.suppress_bell_until ≡ s.suppress_bell_until
unfolding step
suppress-step c s now e h = ground arith

suppress-step_sound :
    (c : Client) (s : Run) (now : ℕ) (e : Event)
    → (step c s now e).1 ≡ true
    → (s.suppress_bell_until ≤ now)
      × ((step c s now e).0.suppress_bell_until ≡ now + bell_cooldown_ms)
unfolding step
suppress-step_sound c s now e h = ground arith

-- In every history of a session, whatever its events and the client's state at each, no sound is
-- played before the time up to which it is suppressed, and none within the cooldown of another.
pub sounds-IsSpaced : (s : Run) (es : List Entry) → IsSpaced s.suppress_bell_until (sounds s es)
unfolding sounds
sounds-IsSpaced s [] = tt
sounds-IsSpaced s (e ∷ es) =
    let (s', _) = step e.client s e.at e.event in
    let rest = sounds-IsSpaced s' es in
    elim (Bool-cases (step e.client s e.at e.event).1) [
      | inl sound ↦
          let (early, next) = suppress-step_sound e.client s e.at e.event sound in
          rw sound (early, rw next at rest)
      | inr silent ↦ rw silent (rw (suppress-step e.client s e.at e.event silent) at rest)
    ]
