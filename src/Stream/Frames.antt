-- ===== src/Stream/Frames.antt =====
-- The frames of both directions: the sixteen bytes of a session, and the data behind them.
use shells.Prelude.{
  ◌≡◌, refl, ap, ◌∙◌, ◌≤◌, ℕ, zero, suc, true, some, [], Str, ◌∷◌, ◌++◌, take, drop, length,
  length-append, arith, if◌then◌else◌,
}
use shells.Connection.Hex.{Bytes, AreBytes}
use shells.Connection.Crypto.{CryptoState}
use shells.Connection.Sid.{buffer_to_sid, sid_to_buffer-buffer_to_sid}
use shells.Stream.{
  Cipher, encrypt, decrypt, Payload, data_bytes, WsMsg, data_msg, plaintext, msg_type, frame,
}
use shells.Stream.Handled.{received-incoming}
use shells.Stream.Receiving.{data_in, dropped, incoming, by_type, received}

-- What is said of AES-GCM: it opens what was sealed with the key and the nonce, and its tag has sixteen
-- bytes.
abbrev pub IsSealing : Cipher → Bytes → Bytes → Type 0
IsSealing w key nonce =
    (m : Bytes)
    → (w.unseal key nonce (w.seal key nonce m) ≡ some m) × (16 ≤ length (w.seal key nonce m))

-- The stream is usable, with a key for what the client sends and one for what it receives.
abbrev pub IsUsable : CryptoState → (c2s s2c : Bytes) → Type 0
IsUsable state c2s s2c =
    (state.crypto_ready ≡ true) × (state.enc_key ≡ some c2s) × (state.dec_key ≡ some s2c)

pub take-append : (xs ys : Bytes) (n : ℕ) → length xs ≡ n → take n (xs ++ ys) ≡ xs
take-append [] ys zero e = refl
take-append [] ys (suc n) e = absurd (omega (arith, e))
take-append (x ∷ xs) ys zero e = absurd (omega (arith, e))
take-append (x ∷ xs) ys (suc n) e = ap (x ∷◌) (take-append xs ys n (omega (arith, e)))

drop-append : (xs ys : Bytes) (n : ℕ) → length xs ≡ n → drop n (xs ++ ys) ≡ ys
drop-append [] ys zero e = refl
drop-append [] ys (suc n) e = absurd (omega (arith, e))
drop-append (x ∷ xs) ys zero e = absurd (omega (arith, e))
drop-append (x ∷ xs) ys (suc n) e = drop-append xs ys n (omega (arith, e))

-- Bytes as the server writes them for the session with the id `buf`.
abbrev pub server_data : Cipher → Bytes → Bytes → Bytes → Bytes → Bytes
server_data w s2c nonce buf payload = 0 ∷ (nonce ++ w.seal s2c nonce (buf ++ payload))

module _ (w : Cipher) (state : CryptoState) (c2s s2c : Bytes)
    (usable : IsUsable state c2s s2c) where
  decrypt-sealed :
      (nonce m : Bytes)
      → IsSealing w s2c nonce
      → length nonce ≡ 12
      → decrypt w (some state) (nonce ++ w.seal s2c nonce m) ≡ some m
  unfolding decrypt
  decrypt-sealed nonce m seals l =
      let (p, _, d) = usable in
      let (o, n) = seals m in
      rw
        (
          p,
          d,
          take-append nonce (w.seal s2c nonce m) 12 l,
          drop-append nonce (w.seal s2c nonce m) 12 l,
        )
        (ground (arith, length-append nonce (w.seal s2c nonce m), l, n, o))

  frame-sent :
      (nonce : Bytes) (msg : WsMsg)
      → frame w (some state) nonce msg
        ≡ some (msg_type msg ∷ (nonce ++ w.seal c2s nonce (plaintext w msg)))
  unfolding frame encrypt
  frame-sent nonce msg = let (r, e, _) = usable in rw (r, e) refl

  unseal-sent :
      (nonce m : Bytes)
      → IsSealing w c2s nonce
      → length nonce ≡ 12
      → let rest = nonce ++ w.seal c2s nonce m in
        w.unseal c2s (take 12 rest) (drop 12 rest) ≡ some m
  unseal-sent nonce m seals l =
      rw (take-append nonce (w.seal c2s nonce m) 12 l, drop-append nonce (w.seal c2s nonce m) 12 l)
        (seals m).0

  received-server_data :
      (nonce buf payload : Bytes)
      → IsSealing w s2c nonce
      → length nonce ≡ 12
      → length buf ≡ 16
      → received w (some state) (incoming w (some state) (server_data w s2c nonce buf payload))
        ≡ data_in (buffer_to_sid buf) payload
  unfolding by_type
  received-server_data nonce buf payload seals l n =
      let rest = nonce ++ w.seal s2c nonce (buf ++ payload) in
      received-incoming w (some state) (0 ∷ rest)
      ∙ ap (λ b. if b then by_type w (0 ∷ rest) (decrypt w (some state) rest) else dropped) usable.0
      ∙ ap (by_type w (0 ∷ rest)) (decrypt-sealed nonce (buf ++ payload) seals l)
      ∙ rw (take-append buf payload 16 n, drop-append buf payload 16 n) refl

  -- A session that the server names by sixteen bytes keeps its name both ways, on a usable stream and with an
  -- AES-GCM that opens what it has sealed: the server's data for it are read as they are, for some id; and
  -- what the client sends for this id is a data frame that opens, under the key of the other direction,
  -- to the same sixteen bytes with the client's data behind them.
  pub frame_lem :
      (nonce nonce' buf payload : Bytes) (reply : Payload)
      → IsSealing w s2c nonce
      → IsSealing w c2s nonce'
      → length nonce ≡ 12
      → length nonce' ≡ 12
      → length buf ≡ 16
      → AreBytes buf
      → (sid : Str) × (received w
            (some state)
            (incoming w (some state) (server_data w s2c nonce buf payload))
          ≡ data_in sid payload)
        × (rest : Bytes) × (frame w (some state) nonce' (data_msg sid reply) ≡ some (0 ∷ rest))
        × (w.unseal c2s (take 12 rest) (drop 12 rest) ≡ some (buf ++ data_bytes w reply))
  unfolding plaintext
  frame_lem nonce nonce' buf payload reply seals seals' l l' n h =
      let sid = buffer_to_sid buf in
      (
        sid,
        received-server_data nonce buf payload seals l n,
        nonce' ++ w.seal c2s nonce' (plaintext w (data_msg sid reply)),
        frame-sent nonce' (data_msg sid reply),
        unseal-sent nonce' (plaintext w (data_msg sid reply)) seals' l'
            ∙ ap (λ b. some (b ++ data_bytes w reply)) (sid_to_buffer-buffer_to_sid buf n h),
      )
