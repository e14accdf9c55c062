-- ===== src/Stream/Drained.antt =====
-- The send queue runs empty, and every message that it held goes out.
use shells.Prelude.{
  ◌≡◌, refl, sym, ap, ◌∙◌, subst, true, none, some, List, [], ◌∷◌, ◌++◌, append-nil, append_assoc,
  arith, length, if◌then◌else◌,
}
use shells.Connection.Hex.{Bytes}
use shells.Connection.Crypto.{CryptoState}
use shells.Stream.{Cipher, WsMsg, frame, msg_type, plaintext, encrypt}
use shells.Stream.Sending.{
  Sender, begin_job, end_job, frame_or_none, SendStep, job_begins, job_ends, send_step, send_steps,
}
use shells.Stream.Sent.{begin_job-first}

-- The socket is logged in, and the key of the stream is there.
abbrev pub IsUsable : Sender → CryptoState → Bytes → Type 0
IsUsable s state key =
    (s.is_open ≡ true)
    × (s.crypto ≡ some state)
    × (state.crypto_ready ≡ true)
    × (state.enc_key ≡ some key)

-- One job after the other, each with its nonce.
abbrev pub jobs : List Bytes → List SendStep
jobs [] = []
jobs (nonce ∷ nonces) = job_begins nonce ∷ (job_ends ∷ jobs nonces)

-- The frames of the messages, sealed with the key.
abbrev pub sealed : Cipher → Bytes → List Bytes → List WsMsg → List Bytes
sealed w key (nonce ∷ nonces) (m ∷ msgs) =
    (msg_type m ∷ (nonce ++ w.seal key nonce (plaintext w m))) ∷ sealed w key nonces msgs
sealed w key _ _ = []

module _ (w : Cipher) (state : CryptoState) (key : Bytes) where
  frame-sealed :
      (nonce : Bytes) (m : WsMsg)
      → state.crypto_ready ≡ true
      → state.enc_key ≡ some key
      → frame w (some state) nonce m
        ≡ some (msg_type m ∷ (nonce ++ w.seal key nonce (plaintext w m)))
  unfolding frame encrypt
  frame-sealed nonce m r k = rw (r, k) refl

  abbrev out : Bytes → WsMsg → Bytes
  out nonce m = msg_type m ∷ (nonce ++ w.seal key nonce (plaintext w m))

  abbrev after_job : Sender → List WsMsg → List Bytes → Sender
  after_job s q sent = record s { queue = q; flying = none; sent = sent }

  end-begin :
      (nonce : Bytes) (m : WsMsg) (q : List WsMsg) (s : Sender)
      → s.flying ≡ none
      → s.queue ≡ m ∷ q
      → IsUsable s state key
      → end_job (begin_job w nonce s) ≡ after_job s q (s.sent ++ (out nonce m ∷ []))
  unfolding end_job
  end-begin nonce m q s a b (o, c, r, k) =
      ap end_job (begin_job-first w nonce s m q a b)
      ∙ ap (after_job s q) (
          ap
            (λ b.
              if b then s.sent ++ frame_or_none (some (m, frame w s.crypto nonce m)) else s.sent)
            o
          ∙ ap (λ c. s.sent ++ frame_or_none (some (m, frame w c nonce m))) c
          ∙ ap (λ f. s.sent ++ frame_or_none (some (m, f))) (frame-sealed nonce m r k))

  drained :
      (nonces : List Bytes) (q : List WsMsg) (s : Sender)
      → length nonces ≡ length q
      → s.queue ≡ q
      → s.flying ≡ none
      → IsUsable s state key
      → let s' = send_steps w (jobs nonces) s in
        (s'.queue ≡ []) × (s'.flying ≡ none) × (s'.sent ≡ s.sent ++ sealed w key nonces q)
  unfolding send_steps send_step
  drained [] [] s l b a u = (b, a, sym (append-nil s.sent))
  drained [] (m ∷ q) s l b a u = absurd (omega (arith, l))
  drained (nonce ∷ nonces) [] s l b a u = absurd (omega (arith, l))
  drained (nonce ∷ nonces) (m ∷ q) s l b a u =
      subst
        (λ t.
          let s' = send_steps w (jobs nonces) t in
          (s'.queue ≡ [])
          × (s'.flying ≡ none)
          × (s'.sent ≡ s.sent ++ (out nonce m ∷ sealed w key nonces q)))
        (sym (end-begin nonce m q s a b u))
        (let (x, y, z) =
            drained nonces q (after_job s q (s.sent ++ (out nonce m ∷ []))) (omega (arith, l)) refl
              refl u in
          (x, y, z ∙ append_assoc s.sent (out nonce m ∷ []) (sealed w key nonces q)))

-- While the socket is logged in and the keys are there, as many jobs as there are messages in the queue empty
-- it, and put on the wire, behind what is there, the frame of every one of them, in order and sealed with
-- the key.
pub drained_lem :
    (w : Cipher) (state : CryptoState) (key : Bytes) (nonces : List Bytes) (s : Sender)
    → length nonces ≡ length s.queue
    → s.flying ≡ none
    → IsUsable s state key
    → let s' = send_steps w (jobs nonces) s in
      (s'.queue ≡ []) × (s'.flying ≡ none) × (s'.sent ≡ s.sent ++ sealed w key nonces s.queue)
drained_lem w state key nonces s l a u = drained w state key nonces s.queue s l refl a u
