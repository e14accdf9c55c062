-- ===== src/Stream/Receiving.antt =====
-- `ws.onmessage` of `public/js/shell-sessions.js`: a binary frame is decrypted from its arrival on, and the
-- chain of promises `rx` handles the frames one after the other.
use shells.Prelude.{
  ℕ, zero, suc, Bool, true, false, ◌||◌, not, Option, none, some, List, [], ◌∷◌, ◌++◌,
  if◌then◌else◌, is_some, drop, take, Str, eqb,
}
use shells.Connection.Hex.{Bytes}
use shells.Connection.Crypto.{CryptoState}
use shells.Connection.Sid.{buffer_to_sid}
use shells.Connection.Socket.{ready_state}
use shells.Stream.{Cipher, decrypt}

-- What `onMessage` makes of a binary frame: data for a terminal, a control message, or nothing. Whether the
-- terminal is there, and whether `_wsReady` lets it take the data, is looked at only then.
pub data Received : Type 0 where
  data_in : Str → Bytes → Received
  control_in : Str → Received
  dropped : Received

-- `pre` is the decryption that was begun on arrival, with what it gives; `ended` says that it has.
pub record Incoming : Type 0 where
  pub raw : Bytes
  pub pre : Option (Option Bytes)
  pub ended : Bool

pub record Receiver : Type 0 where
  pub crypto : Option CryptoState
  pub waiting : List Incoming
  pub handled : List Received

unfoldable pub incoming : Cipher → Option CryptoState → Bytes → Incoming
unfolding decrypt
incoming w crypto raw = record {
  raw = raw;
  pre = if ready_state crypto then some (decrypt w crypto (drop 1 raw)) else none;
  ended = false;
}

unfoldable pub by_type : Cipher → Bytes → Option Bytes → Received
by_type w raw none = dropped
by_type w [] (some plain) = dropped
by_type w (t ∷ rest) (some plain) =
    if eqb t 0
    then data_in (buffer_to_sid (take 16 plain)) (drop 16 plain)
    else if eqb t 1
    then control_in (w.utf8_decode plain)
    else dropped

-- The decryption of the frame, begun now where it was not begun before.
abbrev pub plain_of : Cipher → Option CryptoState → Incoming → Option Bytes
plain_of w crypto inc = elim inc.pre [
  | some result ↦ result
  | none ↦ decrypt w crypto (drop 1 inc.raw)
]

-- `onMessage`, for a binary frame.
unfoldable pub received : Cipher → Option CryptoState → Incoming → Received
unfolding by_type
received w crypto inc =
    if ready_state crypto then by_type w inc.raw (plain_of w crypto inc) else dropped

-- The frame in front is handled when its decryption has ended.
unfoldable pub handle_front : Cipher → List Incoming → Receiver → Receiver
unfolding received
handle_front w [] r = r
handle_front w (inc ∷ rest) r =
    if inc.ended || not (is_some inc.pre)
    then record r { waiting = rest; handled = r.handled ++ (received w r.crypto inc ∷ []) }
    else r

unfoldable pub handle_next : Cipher → Receiver → Receiver
unfolding handle_front
handle_next w r = handle_front w r.waiting r

-- The decryption of the `i`-th waiting frame ends.
unfoldable pub end_decrypt : ℕ → List Incoming → List Incoming
end_decrypt i [] = []
end_decrypt zero (inc ∷ rest) = record inc { ended = true } ∷ rest
end_decrypt (suc i) (inc ∷ rest) = inc ∷ end_decrypt i rest

pub data ReceiveStep : Type 0 where
  arrives : Bytes → ReceiveStep
  decrypt_ends : ℕ → ReceiveStep
  handles : ReceiveStep

unfoldable pub receive_steps : Cipher → List ReceiveStep → Receiver → Receiver
unfolding incoming end_decrypt handle_next
receive_steps w [] r = r
receive_steps w (arrives raw ∷ steps) r =
    receive_steps w steps (record r { waiting = r.waiting ++ (incoming w r.crypto raw ∷ []) })
receive_steps w (decrypt_ends i ∷ steps) r =
    receive_steps w steps (record r { waiting = end_decrypt i r.waiting })
receive_steps w (handles ∷ steps) r = receive_steps w steps (handle_next w r)
