-- ===== src/Bell/Marker.antt =====
-- The attention marker, `_bellLatched`.
use shells.Prelude.{ℕ, ◌≡◌, refl, ◌≢◌, ◌⊎◌, inl, inr, true, false, List, [], ◌∷◌, arith, Bool-cases}
use shells.Bell.{Run, Client, Event, activated, Entry, step, sounds, run}

-- The session is another one than the active one throughout, and is never activated.
abbrev pub InBackground : List Entry → Type 0
InBackground [] = Unit
InBackground (e ∷ es) = (e.client.is_active ≡ false) × (e.event ≢ activated) × InBackground es

step-latched :
    (c : Client) (s : Run) (now : ℕ) (e : Event)
    → c.is_active ≡ false
    → e ≢ activated
    → ((step c s now e).1 ≡ true) ⊎ (s.bell_latched ≡ true)
    → (step c s now e).0.bell_latched ≡ true
unfolding step
step-latched c s now activated off ne h = absurd (ne refl)
step-latched c s now _ off ne h = ground arith

run-latched :
    (s : Run) (es : List Entry)
    → InBackground es
    → s.bell_latched ≡ true
    → (run s es).bell_latched ≡ true
unfolding run
run-latched s [] b h = h
run-latched s (e ∷ es) (off, ne, b) h =
    run-latched (step e.client s e.at e.event).0 es b
      (step-latched e.client s e.at e.event off ne (inr h))

-- A session in the background that has made a sound bears the marker at the end of the history.
pub sounds-latched :
    (s : Run) (es : List Entry)
    → InBackground es
    → sounds s es ≢ []
    → (run s es).bell_latched ≡ true
unfolding sounds run
sounds-latched s [] b h = absurd (h refl)
sounds-latched s (e ∷ es) (off, ne, b) h = elim (Bool-cases (step e.client s e.at e.event).1) [
  | inl sound ↦
      run-latched (step e.client s e.at e.event).0 es b
        (step-latched e.client s e.at e.event off ne (inl sound))
  | inr silent ↦ sounds-latched (step e.client s e.at e.event).0 es b (rw silent at h)
]

step-unlatched :
    (c : Client) (s : Run) (now : ℕ) (e : Event)
    → (step c s now e).1 ≡ false
    → s.bell_latched ≡ false
    → (step c s now e).0.bell_latched ≡ false
unfolding step
step-unlatched c s now e h l = ground arith

-- Only a sound sets the marker: a session that has made none bears it only if it bore it before.
pub silent-unlatched :
    (s : Run) (es : List Entry)
    → sounds s es ≡ []
    → s.bell_latched ≡ false
    → (run s es).bell_latched ≡ false
unfolding sounds run
silent-unlatched s [] q l = l
silent-unlatched s (e ∷ es) q l = elim (Bool-cases (step e.client s e.at e.event).1) [
  | inl sound ↦ absurd (ground arith)
  | inr silent ↦
      silent-unlatched (step e.client s e.at e.event).0 es (rw silent at q)
        (step-unlatched e.client s e.at e.event silent l)
]
