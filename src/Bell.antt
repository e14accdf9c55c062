-- ===== src/Bell.antt =====
-- The idle bell: `runTick`, `_evalBusy`, `_noteOutput` and `_ringBell` of
-- public/js/shell-sessions.js, for one session. Times are milliseconds of `Date.now()`.
pub mod Cooldown
pub mod Runs
pub mod Marker
mod Examples
use shells.Prelude.{
  ℕ, ◌+◌, ◌-◌, Bool, true, false, not, ◌&&◌, ◌||◌, List, [], ◌∷◌, ltb, leb, eqb, if◌then◌else◌,
}

abbrev pub run_gap_ms : ℕ
run_gap_ms = 2500

abbrev pub min_run_ms : ℕ
min_run_ms = 8000

abbrev pub input_idle_ms : ℕ
input_idle_ms = 5000

abbrev pub bell_cooldown_ms : ℕ
bell_cooldown_ms = 1500

abbrev pub pulse_ms : ℕ
pulse_ms = 1500

-- The fields of a session that the bell reads and writes. `run_start` is 0 while no run is on.
pub record Run : Type 0 where
  pub run_start : ℕ
  pub last_output_at : ℕ
  pub last_input_at : ℕ
  pub suppress_bell_until : ℕ
  pub bell_latched : Bool
  pub busy : Bool

-- The fields as `mount` sets them at time `now`.
abbrev pub new : ℕ → Run
new now = record {
  run_start = 0;
  last_output_at = 0;
  last_input_at = 0;
  suppress_bell_until = now + 3000;
  bell_latched = false;
  busy = false;
}

-- A run is on, and its last frame is at least the gap away.
abbrev pub has_ended : Run → ℕ → Bool
has_ended s now = not (eqb s.run_start 0) && leb run_gap_ms (now - s.last_output_at)

-- `now - t >= gap` is false in JavaScript where `now < t`, as it is here, since `gap` is not 0.
unfoldable pub run_tick : Run → ℕ → Bool → Run × Bool
run_tick s now frame =
    let ring =
      has_ended s now
      && leb min_run_ms (s.last_output_at - s.run_start)
      && leb s.last_input_at s.last_output_at in
    let start = if has_ended s now then 0 else s.run_start in
    (
      if frame
          then record s { run_start = if eqb start 0 then now else start; last_output_at = now }
          else record s { run_start = start },
      ring,
    )

-- What `_ringBell` reads of the client.
pub record Client : Type 0 where
  pub bell_suppressed : Bool
  pub is_active : Bool

-- The Boolean says that the sound is played.
unfoldable pub ring_bell : Client → Run → ℕ → Run × Bool
ring_bell c s now = if c.bell_suppressed || ltb now s.suppress_bell_until then (s, false) else (
  record s {
    bell_latched = not c.is_active || s.bell_latched;
    suppress_bell_until = now + bell_cooldown_ms;
  },
  true,
)

-- `if (runTick(…)) this._ringBell(…)`
ring_if : Client → ℕ → Run × Bool → Run × Bool
ring_if c now (s, ring) = if ring then ring_bell c s now else (s, false)

unfoldable pub note_output : Client → Run → ℕ → Run × Bool
unfolding ring_if run_tick ring_bell
note_output c s now =
    if ltb (now - s.last_input_at) input_idle_ms
    then (s, false)
    else ring_if c now (run_tick s now true)

-- One session's round of the timer.
unfoldable pub eval_busy : Client → Run → ℕ → Run × Bool
unfolding ring_if run_tick ring_bell
eval_busy c s now =
    ring_if c now (run_tick (record s { busy = ltb (now - s.last_output_at) pulse_ms }) now false)

-- What happens to a session: output or an activity heartbeat, the timer, a keystroke, a BEL, and
-- the activation of its tile.
pub data Event : Type 0 where
  output second input bel activated : Event

unfoldable pub step : Client → Run → ℕ → Event → Run × Bool
unfolding note_output eval_busy ring_bell
step c s now output = note_output c s now
step c s now second = eval_busy c s now
step c s now input = (record s { last_input_at = now }, false)
step c s now bel = ring_bell c s now
step c s now activated = (record s { bell_latched = false }, false)

-- A history of the session, and the times at which the sound was played in it.
pub record Entry : Type 0 where
  pub client : Client
  pub at : ℕ
  pub event : Event

unfoldable pub sounds : Run → List Entry → List ℕ
sounds s [] = []
sounds s (e ∷ es) =
    let (s', sound) = step e.client s e.at e.event in
    let rest = sounds s' es in if sound then e.at ∷ rest else rest

unfoldable pub run : Run → List Entry → Run
run s [] = s
run s (e ∷ es) = run (step e.client s e.at e.event).0 es
