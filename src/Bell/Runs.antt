-- ===== src/Bell/Runs.antt =====
-- Which output counts as a run that ends with a sound.
use shells.Prelude.{
  ℕ, ◌+◌, ◌-◌, ◌≤◌, ◌<◌, ◌≡◌, refl, ◌≢◌, ◌⊎◌, inl, Bool, true, false, List, [], ◌∷◌, ◌++◌, arith,
  leb, if◌then◌else◌, subst, sym,
}
use shells.Bell.{
  Run, Client, Event, output, second, input, bel, activated, Entry, run_gap_ms, min_run_ms,
  input_idle_ms, step, sounds, run, new,
}

abbrev pub is_output : Event → Bool
is_output output = true
is_output _ = false

-- No BEL, and each output comes a gap or more after the output before it, the last one at `prev`.
abbrev pub IsPeriodic : ℕ → List Entry → Type 0
IsPeriodic prev [] = Unit
IsPeriodic prev (e ∷ es) =
    (e.event ≢ bel)
    × (e.event ≡ output → prev + run_gap_ms ≤ e.at)
    × IsPeriodic (if is_output e.event then e.at else prev) es

-- Between two runs, or in a run of one frame; `prev` bounds the last frame.
abbrev IsShort : ℕ → Run → Type 0
IsShort prev s = ((s.run_start ≡ 0) ⊎ (s.run_start ≡ s.last_output_at)) × (s.last_output_at ≤ prev)

step-IsShort :
    (c : Client) (s : Run) (now : ℕ) (e : Event) (prev : ℕ)
    → IsShort prev s
    → e ≢ bel
    → (e ≡ output → prev + run_gap_ms ≤ now)
    → ((step c s now e).1 ≡ false) × IsShort (if is_output e then now else prev) (step c s now e).0
unfolding step
step-IsShort c s now output prev h ne gap = ground (arith, gap refl)
step-IsShort c s now bel prev h ne gap = absurd (ne refl)
step-IsShort c s now _ prev h ne gap = ground arith

sounds_periodic :
    (s : Run) (prev : ℕ) (es : List Entry) → IsShort prev s → IsPeriodic prev es → sounds s es ≡ []
unfolding sounds
sounds_periodic s prev [] h p = refl
sounds_periodic s prev (e ∷ es) h (ne, gap, p) =
    let (silent, h') = step-IsShort e.client s e.at e.event prev h ne gap in
    rw silent (
      sounds_periodic (step e.client s e.at e.event).0 (if is_output e.event then e.at else prev) es
        h' p)

-- Output with pauses of a gap or more (`watch -n 5`) never rings, from the mount of the session on,
-- whatever the user types and however the timer falls.
pub sounds-IsPeriodic : (t : ℕ) (es : List Entry) → IsPeriodic t es → sounds (new t) es ≡ []
sounds-IsPeriodic t es p = sounds_periodic (new t) t es (inl refl, omega arith) p

-- Frames and timer rounds, each less than the gap after the frame before it, the first after `last`.
abbrev pub IsContinuous : ℕ → List Entry → Type 0
IsContinuous last [] = Unit
IsContinuous last (e ∷ es) =
    ((e.event ≡ output) ⊎ (e.event ≡ second))
    × (last ≤ e.at)
    × (e.at < last + run_gap_ms)
    × IsContinuous (if is_output e.event then e.at else last) es

abbrev pub last_frame : ℕ → List Entry → ℕ
last_frame last [] = last
last_frame last (e ∷ es) = last_frame (if is_output e.event then e.at else last) es

-- In a run that began at `start`, whose last frame came at `last`; no typing since before it.
record InRun (start last quiet : ℕ) (s : Run) : Type 0 where
  started : s.run_start ≡ start
  latest : s.last_output_at ≡ last
  positive : 0 < start
  ordered : start ≤ last
  untyped : s.last_input_at + input_idle_ms ≤ start
  suppress : s.suppress_bell_until ≡ quiet

step-InRun :
    (c : Client) (s : Run) (now : ℕ) (e : Event) (start last quiet : ℕ)
    → InRun start last quiet s
    → (e ≡ output) ⊎ (e ≡ second)
    → last ≤ now
    → now < last + run_gap_ms
    → ((step c s now e).1 ≡ false)
      × InRun start (if is_output e then now else last) quiet (step c s now e).0
unfolding step
step-InRun c s now output start last quiet h k lo hi = ground arith
step-InRun c s now second start last quiet h k lo hi = ground arith
step-InRun c s now input start last quiet h k lo hi = absurd (ground arith)
step-InRun c s now bel start last quiet h k lo hi = absurd (ground arith)
step-InRun c s now activated start last quiet h k lo hi = absurd (ground arith)

run-InRun :
    (s : Run) (start last quiet : ℕ) (es : List Entry)
    → InRun start last quiet s
    → IsContinuous last es
    → (sounds s es ≡ []) × InRun start (last_frame last es) quiet (run s es)
unfolding sounds run
run-InRun s start last quiet [] h k = (refl, h)
run-InRun s start last quiet (e ∷ es) h (kind, lo, hi, k) =
    let (silent, h') = step-InRun e.client s e.at e.event start last quiet h kind lo hi in
    let ih =
      run-InRun (step e.client s e.at e.event).0 start (if is_output e.event then e.at else last)
        quiet es h' k in
    (rw silent ih.0, ih.1)

first_frame-InRun :
    (c : Client) (s : Run) (start : ℕ)
    → s.run_start ≡ 0
    → 0 < start
    → s.last_input_at + input_idle_ms ≤ start
    → ((step c s start output).1 ≡ false)
      × InRun start start s.suppress_bell_until (step c s start output).0
unfolding step
first_frame-InRun c s start idle pos typed = ground arith

last_tick :
    (c : Client) (s : Run) (start last quiet now : ℕ)
    → InRun start last quiet s
    → last + run_gap_ms ≤ now
    → c.bell_suppressed ≡ false
    → quiet ≤ now
    → ((step c s now second).1 ≡ leb min_run_ms (last - start))
      × ((step c s now second).0.run_start ≡ 0)
unfolding step
last_tick c s start last quiet now h gap on due = ground arith

-- Only rounds of the timer.
abbrev pub IsIdle : List Entry → Type 0
IsIdle [] = Unit
IsIdle (e ∷ es) = (e.event ≡ second) × IsIdle es

idle_tick :
    (c : Client) (s : Run) (now : ℕ) (e : Event)
    → e ≡ second
    → s.run_start ≡ 0
    → ((step c s now e).1 ≡ false) × ((step c s now e).0.run_start ≡ 0)
unfolding step
idle_tick c s now e k h = ground arith

sounds_idle : (s : Run) (es : List Entry) → s.run_start ≡ 0 → IsIdle es → sounds s es ≡ []
unfolding sounds
sounds_idle s [] h k = refl
sounds_idle s (e ∷ es) h (kind, k) =
    let (silent, h') = idle_tick e.client s e.at e.event kind h in
    rw silent (sounds_idle (step e.client s e.at e.event).0 es h' k)

sounds-append :
    (s : Run) (es fs : List Entry) → sounds s (es ++ fs) ≡ sounds s es ++ sounds (run s es) fs
unfolding sounds run
sounds-append s [] fs = refl
sounds-append s (e ∷ es) fs = ground (arith, sounds-append (step e.client s e.at e.event).0 es fs)

abbrev pub entry : Client → ℕ → Event → Entry
entry c now e = record { client = c; at = now; event = e }

sounds_tick :
    (s : Run) (c : Client) (start last quiet now : ℕ) (idle : List Entry)
    → InRun start last quiet s
    → last + run_gap_ms ≤ now
    → c.bell_suppressed ≡ false
    → quiet ≤ now
    → IsIdle idle
    → sounds s (entry c now second ∷ idle)
      ≡ (if leb min_run_ms (last - start) then now ∷ [] else [])
unfolding sounds
sounds_tick s c start last quiet now idle h gap on due k =
    let (rings, stopped) = last_tick c s start last quiet now h gap on due in
    rw (rings, sounds_idle (step c s now second).0 idle stopped k)

-- In a session with no run on, whose user last typed `INPUT_IDLE_MS` or more before `start`, a screen
-- that redraws without a pause from `start` on, and then goes silent while nobody types, makes exactly
-- one sound, at the first round of the timer once the gap has passed, if the redrawing lasted
-- `MIN_RUN_MS`, and none if it did not; further rounds of the timer add none. At that round the bell
-- is neither suppressed by the client nor within the cooldown.
pub sounds_run :
    (s : Run) (c c' : Client) (start now : ℕ) (es idle : List Entry)
    → s.run_start ≡ 0
    → 0 < start
    → s.last_input_at + input_idle_ms ≤ start
    → IsContinuous start es
    → last_frame start es + run_gap_ms ≤ now
    → c'.bell_suppressed ≡ false
    → s.suppress_bell_until ≤ now
    → IsIdle idle
    → sounds s (entry c start output ∷ es ++ entry c' now second ∷ idle)
      ≡ (if leb min_run_ms (last_frame start es - start) then now ∷ [] else [])
unfolding sounds
sounds_run s c c' start now es idle off pos typed k gap on due rest =
    let (silent, h) = first_frame-InRun c s start off pos typed in
    let s₁ = (step c s start output).0 in
    let (none_yet, h') = run-InRun s₁ start start s.suppress_bell_until es h k in
    rw (silent, sounds-append s₁ es (entry c' now second ∷ idle), none_yet)
      (sounds_tick (run s₁ es) c' start (last_frame start es) s.suppress_bell_until now idle h' gap
        on due rest)

-- No output and no BEL, and all of it after `last`.
abbrev pub IsSilent : ℕ → List Entry → Type 0
IsSilent last [] = Unit
IsSilent last (e ∷ es) = (e.event ≢ output) × (e.event ≢ bel) × (last < e.at) × IsSilent last es

typed_tick :
    (c : Client) (s : Run) (now : ℕ) (e : Event)
    → e ≢ output
    → e ≢ bel
    → s.last_output_at < s.last_input_at
    → s.last_output_at < now
    → ((step c s now e).1 ≡ false)
      × ((step c s now e).0.last_output_at < (step c s now e).0.last_input_at)
      × ((step c s now e).0.last_output_at ≡ s.last_output_at)
unfolding step
typed_tick c s now output ne nb h lo = absurd (ne refl)
typed_tick c s now bel ne nb h lo = absurd (nb refl)
typed_tick c s now _ ne nb h lo = ground arith

-- A run that the user ended by typing does not ring, however long it was and however long the silence
-- after it lasts.
pub sounds_typed :
    (s : Run) (es : List Entry)
    → s.last_output_at < s.last_input_at
    → IsSilent s.last_output_at es
    → sounds s es ≡ []
unfolding sounds
sounds_typed s [] h k = refl
sounds_typed s (e ∷ es) h (ne, nb, later, k) =
    let (silent, h', same) = typed_tick e.client s e.at e.event ne nb h later in
    rw silent (
      sounds_typed (step e.client s e.at e.event).0 es h' (subst (λ t. IsSilent t es) (sym same) k))
