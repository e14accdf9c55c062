-- ===== src/Autolock/Idle.antt =====
-- An idle page is locked in time, an active one is not, and a lock of all devices may not be sent.
use shells.Prelude.{
  ℕ, zero, suc, ◌+◌, ◌-◌, ◌*◌, ◌≤◌, ◌≡◌, refl, ◌∙◌, true, false, List, [], ◌∷◌, le→leb, arith,
}
use shells.Sessions.State.{App, send}
use shells.Backends.Text.{pos}
use shells.Autolock.{Watch, Event, look, is_idle, maybe_lock, watch_step, send_lock_all}

unfoldable pub watch_steps : Watch → List Event → Watch
unfolding watch_step
watch_steps w [] = w
watch_steps w (e ∷ es) = watch_steps (watch_step w e) es

-- `n` looks of the interval after a time, at a page that is connected, visible and in focus.
abbrev pub looks : ℕ → ℕ → List Event
looks start zero = []
looks start (suc n) = look (start + 30_000) true true true ∷ looks (start + 30_000) n

locked-stays :
    (w : Watch) (start n : ℕ) → w.locked ≡ true → (watch_steps w (looks start n)).locked ≡ true
unfolding watch_steps watch_step maybe_lock
locked-stays w start zero h = h
locked-stays w start (suc n) h =
    locked-stays (maybe_lock w (start + 30_000) true true true) (start + 30_000) n (ground arith)

look-idle :
    (w : Watch) (now m : ℕ)
    → w.minutes ≡ pos (suc m)
    → suc m * 60_000 ≤ now - w.last_activity
    → (maybe_lock w now true true true).locked ≡ true
unfolding maybe_lock is_idle
look-idle w now m e h = rw (e, le→leb (suc m * 60_000) (now - w.last_activity) h) refl

kept :
    (w : Watch) (now : ℕ)
    → ((maybe_lock w now true true true).minutes ≡ w.minutes)
      × ((maybe_lock w now true true true).last_activity ≡ w.last_activity)
unfolding maybe_lock
kept w now = ground arith

-- A page that is connected, visible and in focus, and that nobody touches, is locked after the looks of
-- the interval of 30 seconds have gone on for the minutes that are set.
pub looks_lem :
    (w : Watch) (m n start : ℕ)
    → w.minutes ≡ pos (suc m)
    → w.last_activity ≤ start
    → suc m * 60_000 + w.last_activity ≤ start + 30_000 * suc n
    → (watch_steps w (looks start (suc n))).locked ≡ true
unfolding watch_steps watch_step
looks_lem w m zero start e l h = look-idle w (start + 30_000) m e (omega (arith, h, l))
looks_lem w m (suc n) start e l h =
    let v = maybe_lock w (start + 30_000) true true true in
    let (a, b) = kept w (start + 30_000) in
    looks_lem v m n (start + 30_000) (a ∙ e) (omega (arith, b, l)) (omega (arith, b, h))

-- A client that is not logged in over an open socket is told that the lock of all devices was sent,
-- although nothing is sent.
pub send_lock_all_lem : (a : App) → a.ready ≡ false → send_lock_all a true ≡ (a, true)
unfolding send_lock_all send
send_lock_all_lem a h = rw h refl
