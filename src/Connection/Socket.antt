-- ===== src/Connection/Socket.antt =====
-- The WebSocket's events in `getWs` of `public/js/shell-sessions.js`.
use shells.Prelude.{
  ◌+◌, ◌*◌, ◌/◌, ℕ, Bool, true, false, not, Option, none, some, [], ◌∷◌, ◌++◌, min, if◌then◌else◌,
  Str, eqb,
}
use shells.Connection.Hex.{Bytes}
use shells.Connection.Crypto.{WebCrypto, CryptoState, create_crypto_state}
use shells.Connection.Handshake.{init_crypto, Conn, Ack, Answers, close, crypto_ack}

-- The inner message of a decrypted control frame, as far as it is told apart before the login: a text
-- that is no message makes `JSON.parse` throw.
pub data Inner : Type 0 where
  auth_success : Str → Inner
  other : Inner
  no_message : Inner

-- What arrives: a text, in clear, or a binary frame that was decrypted or failed to be.
pub data Frame : Type 0 where
  ack : Ack → Answers → Frame
  clear_text : Frame
  control : Inner → Frame
  bytes : Bytes → Frame
  garbled : Frame

-- `ws.onopen` of a new socket, with the key pair that is generated.
unfoldable pub on_open : Conn → Bytes → Bytes → Conn
unfolding create_crypto_state close
on_open c private_key raw =
    if c.secret_cancelled then close (record c { closes = [] }) none else record c {
      closes = [];
      crypto = some (create_crypto_state private_key raw);
      sent = c.sent ++ init_crypto raw ∷ [];
    }

abbrev pub ready_state : Option CryptoState → Bool
ready_state none = false
ready_state (some state) = state.crypto_ready

-- A message that fails before the login: the secret is forgotten.
unfoldable pub login_failed : Conn → Conn
unfolding close
login_failed c =
    close
      (record c {
        stored_hash = none;
        stored_salt = none;
        secret_hash = none;
        secret_cancelled = false;
        crypto = none;
      })
      (some 4001)

unfoldable pub logged_in : Conn → Str → Conn
logged_in c token = record c {
  session_token = some token;
  ws_ready = true;
  lock_req = false;
  reconnect_delay = none;
  reconnect_timer = none;
}

-- The message handler before the login, once the stream is usable. In a clear text there is no
-- payload, so that `JSON.parse` throws.
unfoldable pub before_login : Conn → Frame → Conn
unfolding logged_in login_failed
before_login c (control (auth_success token)) = logged_in c token
before_login c (control other) = c
before_login c (control no_message) = login_failed c
before_login c clear_text = login_failed c
before_login c _ = c

-- `onMessage`, for what concerns the connection: a data frame and a frame that cannot be decrypted
-- leave it alone, and so do the control messages after the login.
unfoldable pub on_message : WebCrypto → Conn → Frame → Conn
unfolding crypto_ack before_login
on_message w c (ack msg ans) = crypto_ack w c msg ans
on_message w c (bytes payload) = c
on_message w c garbled = c
on_message w c frame =
    if not (ready_state c.crypto) then c else if c.ws_ready then c else before_login c frame

-- The delay of the next attempt: `Math.min(delay * 2, 30000)`, from 1000.
unfoldable pub next_delay : Option ℕ → ℕ
next_delay none = 1000
next_delay (some delay) = if eqb delay 0 then 1000 else min (delay * 2) 30_000

-- `Math.round(delay / 1000)`
abbrev pub seconds : ℕ → ℕ
seconds delay = (delay + 500) / 1000

-- `ws.onclose`: the timer is set to 2000 milliseconds.
unfoldable pub on_close : Conn → Conn
unfolding next_delay
on_close c =
    let d = record c { ws_ready = false; crypto = none } in
    if c.secret_cancelled
    then record d { secret_cancelled = false; secret_hash = none }
    else record d {
      reconnect_delay = some (next_delay c.reconnect_delay);
      shown_seconds = some (seconds (next_delay c.reconnect_delay));
      reconnect_timer = some 2000;
    }
