-- ===== src/Autolock.antt =====
-- The autolock of public/js/shell-sessions.js: the stored minutes, the idle clock, and `sendLockAll`.
pub mod Idle
mod Examples
use shells.Prelude.{
  ℕ, zero, suc, ◌+◌, ◌-◌, ◌*◌, Bool, true, false, ◌&&◌, not, Option, none, some, List, [], ◌∷◌, Str,
  if◌then◌else◌, leb, min,
}
use shells.Sessions.State.{App, send, lock_all}
use shells.Backends.Text.{ℤ, pos, negsuc, trim_start, take_number, positive, negative, print}

-- `parseInt(s, 10)`, which knows no other radix.
unfoldable pub signed_decimal : Str → Option ℤ
unfolding take_number positive negative
signed_decimal [] = none
signed_decimal (c ∷ s) =
    if leb 45 c && leb c 45
    then negative (take_number 10 none s)
    else positive (take_number 10 none (if leb 43 c && leb c 43 then s else c ∷ s))

abbrev pub or_none : Option ℤ → ℤ
or_none none = pos 0
or_none (some n) = n

-- The argument is what the local storage holds.
unfoldable pub get_autolock_min : Option Str → ℤ
unfolding signed_decimal trim_start
get_autolock_min none = pos 0
get_autolock_min (some text) = or_none (signed_decimal (trim_start text))

-- `Math.max(0, Math.min(720, Math.round(v) || 0))` of a whole number, none for NaN.
unfoldable pub clamp_min : Option ℤ → ℕ
clamp_min none = 0
clamp_min (some (pos n)) = min 720 n
clamp_min (some (negsuc n)) = 0

-- What is stored, and the result.
unfoldable pub set_autolock_min : Option ℤ → Str × ℕ
unfolding clamp_min print
set_autolock_min v = (print (pos (clamp_min v)), clamp_min v)

-- The idle clock, the minutes, and whether the page has been locked.
pub record Watch : Type 0 where
  pub last_activity : ℕ
  pub minutes : ℤ
  pub locked : Bool

-- The user does something; the interval or the visibility has the clock looked at.
pub data Event : Type 0 where
  activity : ℕ → Event
  look : ℕ → Bool → Bool → Bool → Event

-- The last tests of `maybeLock`.
unfoldable pub is_idle : ℕ → ℕ → ℤ → Bool
is_idle now last (negsuc n) = false
is_idle now last (pos zero) = false
is_idle now last (pos (suc n)) = leb (suc n * 60_000) (now - last)

unfoldable pub maybe_lock : Watch → ℕ → Bool → Bool → Bool → Watch
unfolding is_idle
maybe_lock w now ready visible focused =
    if ready && visible && focused && is_idle now w.last_activity w.minutes
    then record w { locked = true }
    else w

unfoldable pub watch_step : Watch → Event → Watch
unfolding maybe_lock
watch_step w (activity now) = record w { last_activity = now }
watch_step w (look now ready visible focused) = maybe_lock w now ready visible focused

-- `sendLockAll`: `sendWs` is `async`, so its result is a promise, which is never false; `is_open` says
-- whether the socket is open at the end.
unfoldable pub send_lock_all : App → Bool → App × Bool
unfolding send
send_lock_all a is_open = (send a lock_all, is_open)
