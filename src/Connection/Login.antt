-- ===== src/Connection/Login.antt =====
-- The states that a connection can reach, and what a login is worth in them.
use shells.Prelude.{◌≡◌, ◌⊎◌, true, false, Option, none, some, List, [], ◌∷◌, In}
use shells.Connection.Hex.{Bytes}
use shells.Connection.Crypto.{WebCrypto, CryptoState}
use shells.Connection.Handshake.{Conn, Ack, lock}
use shells.Connection.Keyed.{IsKeyed}
use shells.Connection.Agreed.{secret_used}
use shells.Connection.Socket.{Frame, ack, on_open, on_message, on_close}
use shells.Connection.Trusted.{IsFresh}

module _ (w : WebCrypto) where
  -- The messages `crypto-ack` that have come, and the secret hashes that their handshakes worked with.
  abbrev pub received_acks : Frame → List Ack → List Ack
  received_acks (ack msg ans) ms = msg ∷ ms
  received_acks _ ms = ms

  abbrev pub used_secrets : Conn → Frame → List (Option Bytes) → List (Option Bytes)
  used_secrets c (ack msg ans) ss = secret_used w c msg ans ∷ ss
  used_secrets c _ ss = ss

  -- The stream is usable, and its present keys come from the public key of a message that has come, over
  -- which this message holds a proof under a secret hash that a handshake of the client worked with.
  abbrev pub IsTrusted : List Ack → List (Option Bytes) → Conn → Type 0
  IsTrusted ms ss c =
      (state : CryptoState) × (c.crypto ≡ some state)
      × (state.crypto_ready ≡ true)
      × (msg : Ack) × In msg ms
      × (secret : Bytes) × In (some secret) ss
      × (key : Bytes) × In (some key) ss
      × IsKeyed w state key secret msg

  -- What an open connection is: not logged in and not used, or trusted.
  abbrev pub Phase : List Ack → List (Option Bytes) → Conn → Type 0
  Phase ms ss c = (IsFresh c.crypto × (c.ws_ready ≡ false)) ⊎ IsTrusted ms ss c

  -- The states that a page can reach, from its start without a connection and without a lock, with the
  -- messages `crypto-ack` and the secret hashes so far. Nothing arrives on a socket that the client has
  -- closed.
  pub data Reachable : List Ack → List (Option Bytes) → Conn → Type 0 where
    start :
        {c : Conn}
        → c.crypto ≡ none
        → c.ws_ready ≡ false
        → c.lock_pending ≡ false
        → Reachable [] [] c
    opens :
        {ms : List Ack} {ss : List (Option Bytes)} {c : Conn} (key raw : Bytes)
        → Reachable ms ss c
        → c.ws_ready ≡ false
        → Reachable ms ss (on_open c key raw)
    receives :
        {ms : List Ack} {ss : List (Option Bytes)} {c : Conn} (f : Frame)
        → Reachable ms ss c
        → c.closes ≡ []
        → Reachable (received_acks f ms) (used_secrets c f ss) (on_message w c f)
    ends :
        {ms : List Ack} {ss : List (Option Bytes)} {c : Conn}
        → Reachable ms ss c
        → Reachable ms ss (on_close c)
    locks :
        {ms : List Ack} {ss : List (Option Bytes)} {c : Conn}
        → Reachable ms ss c
        → Reachable ms ss (lock c)
