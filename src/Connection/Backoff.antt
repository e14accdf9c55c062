-- ===== src/Connection/Backoff.antt =====
-- The delay before a new attempt to connect, as it is counted, shown and used.
use native.Mathlib.Numerals.{unary_clauses}
use shells.Prelude.{◌*◌, ◌^◌, ◌≡◌, ◌∙◌, ap, ℕ, zero, suc, false, some, none, arith, min, ◌<◌}
use shells.Connection.Handshake.{Conn}
use shells.Connection.Socket.{on_close, next_delay, seconds}

abbrev pub closes_in_a_row : ℕ → Conn → Conn
closes_in_a_row zero c = c
closes_in_a_row (suc n) c = on_close (closes_in_a_row n c)

next_delay-some : (d : ℕ) → 0 < d → next_delay (some d) ≡ min (d * 2) 30_000
unfolding next_delay
next_delay-some d h = ground arith

pow_suc : (n : ℕ) → 2 ^ suc n ≡ 2 ^ n * 2
pow_suc n = simp unary_clauses (omega arith)

doubled : (n : ℕ) → min (min (1000 * 2 ^ n) 30_000 * 2) 30_000 ≡ min (1000 * 2 ^ suc n) 30_000
doubled n = omega (arith, pow_suc n)

power_positive : (n : ℕ) → 0 < 2 ^ n
power_positive zero = omega arith
power_positive (suc n) = omega (arith, pow_suc n, power_positive n)

next-doubled :
    (n : ℕ) → next_delay (some (min (1000 * 2 ^ n) 30_000)) ≡ min (1000 * 2 ^ suc n) 30_000
next-doubled n =
    next_delay-some (min (1000 * 2 ^ n) 30_000) (omega (arith, power_positive n)) ∙ doubled n

-- Where the prompt was not cancelled, a close counts the next delay.
on_close_lem :
    (c : Conn)
    → c.secret_cancelled ≡ false
    → ((on_close c).secret_cancelled ≡ false)
      × ((on_close c).reconnect_delay ≡ some (next_delay c.reconnect_delay))
      × ((on_close c).shown_seconds ≡ some (seconds (next_delay c.reconnect_delay)))
      × ((on_close c).reconnect_timer ≡ some 2000)
unfolding on_close
on_close_lem c h = (ground arith, ground arith, ground arith, ground arith)

not_cancelled :
    (n : ℕ) (c : Conn) → c.secret_cancelled ≡ false → (closes_in_a_row n c).secret_cancelled ≡ false
not_cancelled zero c h = h
not_cancelled (suc n) c h = (on_close_lem (closes_in_a_row n c) (not_cancelled n c h)).0

next-closes_in_a_row :
    (n : ℕ) (c : Conn)
    → c.reconnect_delay ≡ none
    → c.secret_cancelled ≡ false
    → next_delay (closes_in_a_row n c).reconnect_delay ≡ min (1000 * 2 ^ n) 30_000
unfolding next_delay
next-closes_in_a_row zero c h k = rw h
next-closes_in_a_row (suc n) c h k =
    ap next_delay (
      (on_close_lem (closes_in_a_row n c) (not_cancelled n c k)).1
      ∙ ap some (next-closes_in_a_row n c h k))
    ∙ next-doubled n

-- After a connection that has logged in, where the prompt for the secret was not cancelled, each
-- close in a row, the first with n = 0, counts a delay of 1000 * 2 ^ n milliseconds, at most 30000, and shows it in
-- seconds; the timer of the next attempt is set to 2000 milliseconds every time.
pub closes_in_a_row_lem :
    (n : ℕ) (c : Conn)
    → c.reconnect_delay ≡ none
    → c.secret_cancelled ≡ false
    → ((closes_in_a_row (suc n) c).reconnect_delay ≡ some (min (1000 * 2 ^ n) 30_000))
      × ((closes_in_a_row (suc n) c).shown_seconds ≡ some (seconds (min (1000 * 2 ^ n) 30_000)))
      × ((closes_in_a_row (suc n) c).reconnect_timer ≡ some 2000)
closes_in_a_row_lem n c h k =
    let last = on_close_lem (closes_in_a_row n c) (not_cancelled n c k) in
    let e = next-closes_in_a_row n c h k in
    (last.1 ∙ ap some e, last.2 ∙ ap (λ d. some (seconds d)) e, last.3)
