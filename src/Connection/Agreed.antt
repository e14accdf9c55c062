-- ===== src/Connection/Agreed.antt =====
-- What a handshake that leaves the connection open has done, from the state before and with the secret hash
-- that it worked with.
use shells.Prelude.{
  ◌≡◌, refl, sym, ◌∙◌, Bool, false, ◌||◌, Option, none, some, List, [], ◌∷◌, ◌++◌, subst,
  if◌then◌else◌, ℕ, arith, if-cases, Str, ◌==◌, str_eq,
}
use shells.Connection.Hex.{Bytes}
use shells.Connection.Crypto.{WebCrypto, CryptoState, AckError, handle_crypto_ack, get_hmac_key}
use shells.Connection.Handshake.{
  Conn, Ack, Answers, close, is_stored, check_fingerprint, derive, lock, waited, take_secret,
  ask_secret, resolve_secret_hash, fail, respond, answer, with_hash, authenticate, crypto_ack,
}
use shells.Connection.Keyed.{IsKeyed, handle_crypto_ack-IsKeyed}

pub append_ne {ℓ} : {A : Type ℓ} (xs : List A) (x : A) → xs ++ x ∷ [] ≡ [] → ⊥
append_ne [] x e = cc e
append_ne (y ∷ ys) x e = cc e

module _ (w : WebCrypto) where
  -- The handshake has ended without an error, from the crypto state `o`, with a secret hash and the state
  -- that is kept.
  abbrev pub IsAgreed : Option CryptoState → Option Bytes → Ack → Conn → Type 0
  IsAgreed o used msg d =
      (old : CryptoState) × (o ≡ some old)
      × (secret : Bytes) × (used ≡ some secret)
      × (state : CryptoState) × (d.crypto ≡ some state)
      × IsKeyed w state (get_hmac_key old secret) secret msg

  respond-IsAgreed :
      (c : Conn) (msg : Ack) (secret : Bytes) (old state : CryptoState) (error : Option AckError)
      → (error ≡ none → IsKeyed w state (get_hmac_key old secret) secret msg)
      → (respond w c msg secret state error).closes ≡ []
      → IsAgreed (some old) (some secret) msg (respond w c msg secret state error)
  unfolding respond fail close
  respond-IsAgreed c msg secret old state none keyed o =
      (old, refl, secret, refl, state, refl, keyed refl)
  respond-IsAgreed c msg secret old state (some error) keyed o =
      absurd (append_ne c.closes none (ground arith))

  answer-IsAgreed :
      (c : Conn) (msg : Ack) (secret : Bytes) (o : Option CryptoState)
      → (msg.auth_proof == []) ≡ false
      → (answer w c msg secret o).closes ≡ []
      → IsAgreed o (some secret) msg (answer w c msg secret o)
  unfolding answer fail close
  answer-IsAgreed c msg secret none given o = absurd (append_ne c.closes none o)
  answer-IsAgreed c msg secret (some old) given o =
      let r = handle_crypto_ack w old msg.public_key secret msg.auth_proof in
      respond-IsAgreed c msg secret old r.0 r.1 (handle_crypto_ack-IsKeyed w old secret msg given) o

  with_hash-IsAgreed :
      (c : Conn) (msg : Ack) (used : Option Bytes)
      → (msg.auth_proof == []) ≡ false
      → (with_hash w c msg used).closes ≡ []
      → IsAgreed c.crypto used msg (with_hash w c msg used)
  unfolding with_hash close
  with_hash-IsAgreed c msg none given o = absurd (append_ne c.closes none o)
  with_hash-IsAgreed c msg (some secret) given o =
      answer-IsAgreed (record c { secret_hash = some secret }) msg secret c.crypto given o

  -- The secret hash that a handshake works with: the one that the client holds, or what `resolveSecretHash`
  -- gives.
  abbrev pub secret_of : Conn → Ack → Answers → Option Bytes → Option Bytes
  secret_of c msg ans (some secret) = some secret
  secret_of c msg ans none = (resolve_secret_hash w c msg.salt ans).1

  abbrev pub secret_used : Conn → Ack → Answers → Option Bytes
  secret_used c msg ans =
      let d = (check_fingerprint c msg.fingerprint ans.confirmed).0 in
      secret_of d msg ans d.secret_hash

  resolve_secret_hash-crypto :
      (c : Conn) (salt : Str) (ans : Answers)
      → (resolve_secret_hash w c salt ans).0.crypto ≡ c.crypto
  unfolding resolve_secret_hash ask_secret take_secret waited lock derive
  resolve_secret_hash-crypto c salt ans = ground arith

  authenticate-IsAgreed :
      (c : Conn) (msg : Ack) (ans : Answers) (o : Option Bytes)
      → (msg.auth_proof == []) ≡ false
      → (authenticate w c msg ans o).closes ≡ []
      → IsAgreed c.crypto (secret_of c msg ans o) msg (authenticate w c msg ans o)
  unfolding authenticate
  authenticate-IsAgreed c msg ans (some secret) given o =
      answer-IsAgreed c msg secret c.crypto given o
  authenticate-IsAgreed c msg ans none given o =
      let r = resolve_secret_hash w c msg.salt ans in
      subst (λ x. IsAgreed x r.1 msg (with_hash w r.0 msg r.1))
        (resolve_secret_hash-crypto c msg.salt ans) (with_hash-IsAgreed r.0 msg r.1 given o)

  check_fingerprint-crypto :
      (c : Conn) (fingerprint : Str) (confirmed : Bool)
      → (check_fingerprint c fingerprint confirmed).0.crypto ≡ c.crypto
  unfolding check_fingerprint close
  check_fingerprint-crypto c fingerprint confirmed = ground arith

  check_fingerprint-closes :
      (c : Conn) (fingerprint : Str) (confirmed : Bool)
      → (check_fingerprint c fingerprint confirmed).1 ≡ false
      → (code : Option ℕ) × ((check_fingerprint c fingerprint confirmed).0.closes
          ≡ c.closes ++ code ∷ [])
  unfolding check_fingerprint close
  check_fingerprint-closes c fingerprint confirmed h =
      (if is_stored c.stored_fingerprint then some 4001 else some 4000, ground arith)

  -- A `crypto-ack` that leaves the connection open has ended without an error.
  pub crypto_ack-IsAgreed :
      (c : Conn) (msg : Ack) (ans : Answers)
      → (crypto_ack w c msg ans).closes ≡ []
      → IsAgreed c.crypto (secret_used c msg ans) msg (crypto_ack w c msg ans)
  unfolding crypto_ack close
  crypto_ack-IsAgreed c msg ans =
      let r = check_fingerprint c msg.fingerprint ans.confirmed in
      let End = λ (d : Conn). d.closes ≡ [] → IsAgreed c.crypto (secret_used c msg ans) msg d in
      if-cases End (msg.auth_proof == [] || msg.auth_challenge == []) _ _
        (λ missing o. absurd (append_ne c.closes (some 4002) o))
        (λ given.
          if-cases End r.1 _ _
            (λ on o.
              subst
                (λ x.
                  IsAgreed x (secret_used c msg ans) msg
                    (authenticate w r.0 msg ans r.0.secret_hash))
                (check_fingerprint-crypto c msg.fingerprint ans.confirmed)
                (authenticate-IsAgreed r.0 msg ans r.0.secret_hash (ground arith) o))
            (λ no o.
              let (code, e) = check_fingerprint-closes c msg.fingerprint ans.confirmed no in
              absurd (append_ne c.closes code (sym e ∙ o))))
