-- ===== src/Stream.antt =====
-- The encrypted stream: `encrypt` and `decrypt` of public/js/crypto.js, the frames of `sendWs` and
-- `onMessage` in public/js/shell-sessions.js, and the two queues that keep their order.
use shells.Prelude.{
  ◌+◌, ◌≤◌, ◌≡◌, refl, ap, ◌∙◌, arith, ℕ, Bool, true, false, Option, none, some, [], ◌∷◌, ◌++◌, ltb,
  eqb, take, drop, length, if◌then◌else◌, Str,
}
use shells.Connection.Hex.{Bytes}
use shells.Connection.Crypto.{CryptoState}
use shells.Connection.Sid.{sid_to_buffer, buffer_to_sid}
pub mod Sending
pub mod Sent
pub mod Drained
pub mod Receiving
pub mod Handled
pub mod Frames
mod Examples

-- AES-GCM of the browser, by key, nonce and text, and the text encoder. The authentication of a text that
-- was not sealed with the key and the nonce fails, and gives none.
pub record Cipher : Type 0 where
  pub seal : Bytes → Bytes → Bytes → Bytes
  pub unseal : Bytes → Bytes → Bytes → Option Bytes
  pub utf8 : Str → Bytes
  pub utf8_decode : Bytes → Str

-- `encrypt`, with the random nonce; a null state, one that is not ready and a missing key make it reject.
unfoldable pub encrypt : Cipher → Option CryptoState → Bytes → Bytes → Option Bytes
encrypt w none nonce msg = none
encrypt w (some state) nonce msg =
    if state.crypto_ready
    then elim state.enc_key [ none ↦ none | some key ↦ some (nonce ++ w.seal key nonce msg) ]
    else none

-- `decrypt`
unfoldable pub decrypt : Cipher → Option CryptoState → Bytes → Option Bytes
decrypt w none buf = none
decrypt w (some state) buf =
    if state.crypto_ready
    then if ltb (length buf) 28
      then none
      else elim state.dec_key [ none ↦ none | some key ↦ w.unseal key (take 12 buf) (drop 12 buf) ]
    else none

-- The data of a message for a terminal.
pub data Payload : Type 0 where
  text : Str → Payload
  raw : Bytes → Payload

-- A message of `sendWs`; a control message stands as its `JSON.stringify`.
pub data WsMsg : Type 0 where
  data_msg : Str → Payload → WsMsg
  control_msg : Str → WsMsg

unfoldable pub data_bytes : Cipher → Payload → Bytes
data_bytes w (text s) = w.utf8 s
data_bytes w (raw bytes) = bytes

unfoldable pub plaintext : Cipher → WsMsg → Bytes
unfolding data_bytes
plaintext w (data_msg sid payload) = sid_to_buffer sid ++ data_bytes w payload
plaintext w (control_msg json) = w.utf8 json

abbrev pub msg_type : WsMsg → ℕ
msg_type (data_msg sid payload) = 0
msg_type (control_msg json) = 1

abbrev pub cons_type : ℕ → Option Bytes → Option Bytes
cons_type t none = none
cons_type t (some encrypted) = some (t ∷ encrypted)

-- The frame of a message.
unfoldable pub frame : Cipher → Option CryptoState → Bytes → WsMsg → Option Bytes
unfolding encrypt plaintext
frame w state nonce msg = cons_type (msg_type msg) (encrypt w state nonce (plaintext w msg))
