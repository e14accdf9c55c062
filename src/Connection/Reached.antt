-- ===== src/Connection/Reached.antt =====
-- Every state that a connection reaches while it is logged in is trusted.
use shells.Prelude.{
  ◌≡◌, refl, sym, ap, ◌∙◌, subst, inl, inr, true, false, not, Option, none, some, List, [], ◌∷◌, In,
  if◌then◌else◌, Bool-cases,
}
use shells.Connection.Hex.{Bytes}
use shells.Connection.Crypto.{WebCrypto, CryptoState, create_crypto_state, get_hmac_key, set_keys}
use shells.Connection.Handshake.{Conn, Ack, Answers, close, crypto_ack, lock}
use shells.Connection.Socket.{
  Frame, auth_success, other, no_message, ack, bytes, garbled, clear_text, control, on_open,
  on_message, on_close, before_login, ready_state, login_failed, logged_in,
}
use shells.Connection.Trusted.{IsFresh}
use shells.Connection.Keyed.{IsKeyed}
use shells.Connection.Agreed.{append_ne, IsAgreed, secret_used, crypto_ack-IsAgreed}
use shells.Connection.Login.{
  received_acks, used_secrets, IsTrusted, Phase, Reachable, start, opens, receives, ends, locks,
}

IsFresh-off : (o : Option CryptoState) → IsFresh o → ready_state o ≡ false
IsFresh-off none h = refl
IsFresh-off (some state) (fresh, off) = off

module _ (w : WebCrypto) where
  IsKeyed-ready :
      (state : CryptoState) (key secret : Bytes) (msg : Ack)
      → IsKeyed w state key secret msg
      → state.crypto_ready ≡ true
  unfolding set_keys
  IsKeyed-ready state key secret msg (pub_key, e, mac, f, g, k, shared, p, q) =
      ap (λ s. s.crypto_ready) q

  IsTrusted-ready :
      (ms : List Ack) (ss : List (Option Bytes)) (c : Conn)
      → IsTrusted w ms ss c
      → ready_state c.crypto ≡ true
  IsTrusted-ready ms ss c (state, e, on, msg, i, secret, j, key, k, keyed) = rw e on

  hmac_key-eq :
      (state : CryptoState) (key secret : Bytes)
      → state.hmac_key ≡ some key
      → get_hmac_key state secret ≡ key
  unfolding get_hmac_key
  hmac_key-eq state key secret e = rw e refl

  hmac_key-fresh :
      (state : CryptoState) (secret : Bytes)
      → state.hmac_key ≡ none
      → get_hmac_key state secret ≡ secret
  unfolding get_hmac_key
  hmac_key-fresh state secret e = rw e refl

  some_eq : {s t : CryptoState} → some s ≡ some t → s ≡ t
  some_eq e = cc

  -- The HMAC key is made of the secret hash of this handshake, or of one before.
  In-key :
      (ms : List Ack) (ss : List (Option Bytes)) (c : Conn) (old : CryptoState) (secret : Bytes)
      → Phase w ms ss c
      → c.crypto ≡ some old
      → In (some (get_hmac_key old secret)) (some secret ∷ ss)
  In-key ms ss c old secret (inl (fresh, out)) e =
      inl (ap some (hmac_key-fresh old secret (subst IsFresh e fresh).0))
  In-key ms ss c old secret
        (inr (state, p, on, msg, i, secret', j, key, k, (pub_key, q, mac, f, g, h, shared, r, u)))
        e =
      inr (
        subst (λ x. In (some x) ss)
          (sym (
            hmac_key-eq old key secret
              (subst (λ s. s.hmac_key ≡ some key) (some_eq (sym p ∙ e)) h)))
          k)

  ack-Phase :
      (ms : List Ack) (ss : List (Option Bytes)) (c : Conn) (msg : Ack) (ans : Answers)
      → Phase w ms ss c
      → (crypto_ack w c msg ans).closes ≡ []
      → Phase w (msg ∷ ms) (secret_used w c msg ans ∷ ss) (crypto_ack w c msg ans)
  ack-Phase ms ss c msg ans h o =
      agreed_phase (secret_used w c msg ans) (crypto_ack w c msg ans)
        (crypto_ack-IsAgreed w c msg ans o)
    where
      agreed_phase :
          (used : Option Bytes) (d : Conn)
          → IsAgreed w c.crypto used msg d
          → Phase w (msg ∷ ms) (used ∷ ss) d
      agreed_phase used d (old, e, secret, u, state, p, keyed) = inr (
        state,
        p,
        IsKeyed-ready state (get_hmac_key old secret) secret msg keyed,
        msg,
        inl refl,
        secret,
        inl (sym u),
        get_hmac_key old secret,
        subst (λ x. In (some (get_hmac_key old secret)) (x ∷ ss)) (sym u)
            (In-key ms ss c old secret h e),
        keyed,
      )

  before-Phase :
      (ms : List Ack) (ss : List (Option Bytes)) (c : Conn) (f : Frame)
      → IsTrusted w ms ss c
      → (before_login c f).closes ≡ []
      → Phase w ms ss (before_login c f)
  unfolding before_login logged_in login_failed close
  before-Phase ms ss c (control (auth_success token)) t o = inr t
  before-Phase ms ss c (control other) t o = inr t
  before-Phase ms ss c (control no_message) t o = absurd (append_ne c.closes (some 4001) o)
  before-Phase ms ss c clear_text t o = absurd (append_ne c.closes (some 4001) o)
  before-Phase ms ss c (ack msg ans) t o = inr t
  before-Phase ms ss c (bytes payload) t o = inr t
  before-Phase ms ss c garbled t o = inr t

  -- A message that is handled by what the connection is: `d` is the state where it is not dropped.
  dropped-Phase :
      (ms : List Ack) (ss : List (Option Bytes)) (c d : Conn)
      → Phase w ms ss c
      → (IsTrusted w ms ss c → d.closes ≡ [] → Phase w ms ss d)
      → (if not (ready_state c.crypto) then c else if c.ws_ready then c else d).closes ≡ []
      → Phase w ms ss (if not (ready_state c.crypto) then c else if c.ws_ready then c else d)
  dropped-Phase ms ss c d (inl (fresh, out)) next o =
      rw (IsFresh-off c.crypto fresh) (inl (fresh, out))
  dropped-Phase ms ss c d (inr trusted) next o = elim (Bool-cases c.ws_ready) [
    | inl e ↦ rw (IsTrusted-ready ms ss c trusted, e) (inr trusted)
    | inr e ↦
        rw (IsTrusted-ready ms ss c trusted, e)
          (next trusted (rw (IsTrusted-ready ms ss c trusted, e) at o))
  ]

  on_message-Phase :
      (ms : List Ack) (ss : List (Option Bytes)) (c : Conn) (f : Frame)
      → Phase w ms ss c
      → (on_message w c f).closes ≡ []
      → Phase w (received_acks w f ms) (used_secrets w c f ss) (on_message w c f)
  unfolding on_message
  on_message-Phase ms ss c (ack msg ans) p o = ack-Phase ms ss c msg ans p o
  on_message-Phase ms ss c (bytes payload) p o = p
  on_message-Phase ms ss c garbled p o = p
  on_message-Phase ms ss c clear_text p o =
      dropped-Phase ms ss c (before_login c clear_text) p (before-Phase ms ss c clear_text) o
  on_message-Phase ms ss c (control inner) p o =
      dropped-Phase ms ss c (before_login c (control inner)) p
        (before-Phase ms ss c (control inner)) o

  on_open-Phase :
      (ms : List Ack) (ss : List (Option Bytes)) (c : Conn) (key raw : Bytes)
      → c.ws_ready ≡ false
      → (on_open c key raw).closes ≡ []
      → Phase w ms ss (on_open c key raw)
  unfolding on_open close create_crypto_state
  on_open-Phase ms ss c key raw out o = elim (Bool-cases c.secret_cancelled) [
    | inl e ↦ absurd (append_ne [] none (rw e at o))
    | inr e ↦ rw e (inl ((refl, refl), out))
  ]

  on_close-Phase :
      (ms : List Ack) (ss : List (Option Bytes)) (c : Conn) → Phase w ms ss (on_close c)
  unfolding on_close
  on_close-Phase ms ss c = elim (Bool-cases c.secret_cancelled) [
    | inl e ↦ rw e (inl (tt, refl))
    | inr e ↦ rw e (inl (tt, refl))
  ]

  Reachable-Phase :
      (ms : List Ack) (ss : List (Option Bytes)) (c : Conn)
      → Reachable w ms ss c
      → c.closes ≡ []
      → Phase w ms ss c
  unfolding lock
  Reachable-Phase ms ss c (start e out free) o = inl (subst IsFresh (sym e) tt, out)
  Reachable-Phase ms ss c (opens {c = b} key raw r out) o = on_open-Phase ms ss b key raw out o
  Reachable-Phase ms ss c (receives {ms = ms'} {ss = ss'} {c = b} f r still) o =
      on_message-Phase ms' ss' b f (Reachable-Phase ms' ss' b r still) o
  Reachable-Phase ms ss c (ends {c = b} r) o = on_close-Phase ms ss b
  Reachable-Phase ms ss c (locks {c = b} r) o = Reachable-Phase ms ss b r o

  -- In every state that a page reaches, whatever the server sends and the user answers: a client that
  -- is logged in over an open socket has a usable stream, whose present keys come from the public key of a
  -- `crypto-ack` that it has received; and this message holds a proof over the public key that was
  -- verified under a secret hash which the client held or derived in one of its handshakes.
  pub logged_in-IsTrusted :
      (ms : List Ack) (ss : List (Option Bytes)) (c : Conn)
      → Reachable w ms ss c
      → c.ws_ready ≡ true
      → c.closes ≡ []
      → IsTrusted w ms ss c
  logged_in-IsTrusted ms ss c r on o = elim (Reachable-Phase ms ss c r o) [
    | inl (fresh, out) ↦ cc (on, out)
    | inr trusted ↦ trusted
  ]
