-- ===== src/Stream/Sending.antt =====
-- `sendWs` of `public/js/shell-sessions.js`: the chain of promises in `_sendQueue`.
use shells.Prelude.{Bool, true, false, ◌&&◌, Option, none, some, List, [], ◌∷◌, ◌++◌, if◌then◌else◌}
use shells.Connection.Hex.{Bytes}
use shells.Connection.Crypto.{CryptoState}
use shells.Stream.{Cipher, WsMsg, frame}

-- `is_open` is `this.ws && this.ws.readyState === 1`. The jobs of `queue` have not begun; `flying` is the
-- one that waits for `encrypt`, with its message and what `encrypt` will give. `sent` are the frames of
-- all sockets, the oldest first.
pub record Sender : Type 0 where
  pub is_open : Bool
  pub ws_ready : Bool
  pub crypto : Option CryptoState
  pub queue : List WsMsg
  pub flying : Option (WsMsg × Option Bytes)
  pub sent : List Bytes

-- What `sendWs` resolves to.
unfoldable pub will_send : Sender → Bool
will_send s = s.is_open && s.ws_ready

unfoldable pub send_ws : WsMsg → Sender → Sender
unfolding will_send
send_ws msg s = if will_send s then record s { queue = s.queue ++ (msg ∷ []) } else s

-- The next job begins when the one before has ended, with the keys that are there by then.
unfoldable pub begin_job : Cipher → Bytes → Sender → Sender
begin_job w nonce s = elim s.flying [
  | some job ↦ s
  | none ↦ elim s.queue [
    | [] ↦ s
    | msg ∷ queue ↦ record s { queue = queue; flying = some (msg, frame w s.crypto nonce msg) }
  ]
]

abbrev pub frame_or_none : Option (WsMsg × Option Bytes) → List Bytes
frame_or_none none = []
frame_or_none (some (msg, none)) = []
frame_or_none (some (msg, some bytes)) = bytes ∷ []

-- `encrypt` has ended: an error is only logged, and a frame goes out where the socket is open.
unfoldable pub end_job : Sender → Sender
end_job s = record s {
  flying = none;
  sent = if s.is_open then s.sent ++ frame_or_none s.flying else s.sent;
}

-- What happens: a call of `sendWs`, the two halves of a job, `onclose`, and a new socket with its keys and
-- then its login.
pub data SendStep : Type 0 where
  call : WsMsg → SendStep
  job_begins : Bytes → SendStep
  job_ends : SendStep
  socket_closes : SendStep
  socket_opens : Option CryptoState → SendStep
  keys_agreed : CryptoState → SendStep
  login : SendStep

unfoldable pub send_step : Cipher → SendStep → Sender → Sender
unfolding send_ws begin_job end_job
send_step w (call msg) s = send_ws msg s
send_step w (job_begins nonce) s = begin_job w nonce s
send_step w job_ends s = end_job s
send_step w socket_closes s = record s { is_open = false; ws_ready = false; crypto = none }
send_step w (socket_opens crypto) s = record s { is_open = true; crypto = crypto }
send_step w (keys_agreed state) s = record s { crypto = some state }
send_step w login s = record s { ws_ready = true }

unfoldable pub send_steps : Cipher → List SendStep → Sender → Sender
unfolding send_step
send_steps w [] s = s
send_steps w (step ∷ steps) s = send_steps w steps (send_step w step s)

-- The messages for which `sendWs` has returned true.
unfoldable pub accepted_msgs : Cipher → List SendStep → Sender → List WsMsg
unfolding send_step will_send
accepted_msgs w [] s = []
accepted_msgs w (call msg ∷ steps) s =
    let rest = accepted_msgs w steps (send_ws msg s) in if will_send s then msg ∷ rest else rest
accepted_msgs w (step ∷ steps) s = accepted_msgs w steps (send_step w step s)
