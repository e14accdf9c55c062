-- ===== src/Sessions/Roles.antt =====
-- Which device is the active client of a session: `_claimActiveIfNeeded`, `_handlePtySize` and
-- `_applyScaling` of public/js/shell/scaling.js. A function that reads the clock takes `now`, and what
-- the terminal and the page measure comes as arguments.
use shells.Prelude.{
  ℕ, ◌+◌, ◌-◌, ◌*◌, Bool, true, false, not, ◌||◌, Option, none, some, nat_eq, if◌then◌else◌, ltb,
  leb, ◌==◌, filter,
}
use shells.JsMap
use shells.JsMap.{JsMap}
use shells.Sessions.State.{Sid, Session, Ratio, one, Size, claim_active, App, send}

abbrev pub get_or {ℓ} : {A : Type ℓ} → Option A → A → A
get_or none d = d
get_or (some a) d = a

unfoldable pub is_client : App → Sid → Bool
unfolding JsMap.get
is_client a id = get_or (JsMap.get a.is_active_client id) false

abbrev pub set_scale : Ratio → Session → Session
set_scale r s = record s { scale = r }

-- A session whose terminal is there.
unfoldable pub has_term : App → Sid → Bool
unfolding JsMap.get
has_term a id = elim (JsMap.get a.sessions id) [ none ↦ false | some s ↦ not s.mounting ]

abbrev pub claim_gap_ms : ℕ
claim_gap_ms = 300

-- The end of `_claimActiveIfNeeded`; `dims` is the size that the fit addon proposes, or else the
-- terminal's.
unfoldable pub send_claim : App → Sid → ℕ → Size → App
unfolding send JsMap.get JsMap.set
send_claim a id now dims =
    if ltb (now - get_or (JsMap.get a.last_claim_active id) 0) claim_gap_ms
    then a
    else send (record a { last_claim_active = JsMap.set a.last_claim_active id now })
        (claim_active id dims)

-- The role is taken here, and the scaling styles are cleared.
unfoldable pub become_client : App → Sid → App
unfolding JsMap.set JsMap.modify
become_client a id = record a {
  is_active_client = JsMap.set a.is_active_client id true;
  sessions = JsMap.modify a.sessions id (set_scale one);
}

unfoldable pub claim_active_if_needed : App → Sid → ℕ → Size → App
unfolding send_claim is_client has_term become_client
claim_active_if_needed a id now dims =
    if not (has_term a id) || is_client a id then a else send_claim (become_client a id) id now dims

-- The last part of `_handlePtySize`, for a session restored by a fresh page load.
unfoldable pub reclaim : App → Sid → Bool → ℕ → Size → App
unfolding claim_active_if_needed JsMap.includes
reclaim a sid active now dims =
    if JsMap.includes a.pending_claim_sids sid
    then (let b = record a {
      pending_claim_sids = filter (λ j. not (j == sid)) a.pending_claim_sids;
    } in
        if active then b else claim_active_if_needed b sid now dims)
    else a

-- The role and the size that the server reports are stored.
unfoldable pub store_pty_size : App → Sid → Size → Bool → App
unfolding JsMap.set JsMap.modify
store_pty_size a sid size active = record a {
  pty_sizes = JsMap.set a.pty_sizes sid size;
  is_active_client = JsMap.set a.is_active_client sid active;
  sessions = if active then JsMap.modify a.sessions sid (set_scale one) else a.sessions;
}

-- The scaling of a client that is not active waits for a frame: it is `apply_scaling` below.
unfoldable pub handle_pty_size : App → Sid → Size → Bool → ℕ → Size → App
unfolding reclaim has_term store_pty_size JsMap.set
handle_pty_size a sid size active now dims =
    if has_term a sid
    then reclaim (store_pty_size a sid size active) sid active now dims
    else record a {
      pending_pty_size =
          JsMap.set a.pending_pty_size sid (record { size = size; is_active = active });
    }

-- `q <= r`, by cross-multiplication.
abbrev pub ratio_leb : Ratio → Ratio → Bool
ratio_leb q r = leb (q.num * r.den) (r.num * q.den)

abbrev pub ratio_min : Ratio → Ratio → Ratio
ratio_min q r = if ratio_leb q r then q else r

-- `Math.min(availableWidth / ptyPixelWidth, availableHeight / ptyPixelHeight, 1.0)`, where `cell` and
-- `body` are in pixels.
unfoldable pub scale_factor : Size → Size → Size → Ratio
scale_factor pty cell body =
    ratio_min
      (ratio_min (record { num = body.cols; den = pty.cols * cell.cols })
        (record { num = body.rows; den = pty.rows * cell.rows }))
      one

-- A round of `_applyScaling`: no cell size means that the renderer has no dimensions yet, and asks
-- for another round.
pub data Scaling : Type 0 where
  done : App → Scaling
  retry : ℕ → Scaling

unfoldable pub apply_scaling : App → Sid → Size → Option Size → Size → ℕ → Scaling
unfolding is_client scale_factor JsMap.modify
apply_scaling a sid pty cell body retry_count =
    if ltb 10 retry_count || is_client a sid then done a else elim cell [
      | none ↦ retry (retry_count + 1)
      | some c ↦
          if c.cols == 0 || c.rows == 0
          then retry (retry_count + 1)
          else done (record a {
            sessions = JsMap.modify a.sessions sid (set_scale (scale_factor pty c body));
          })
    ]
