-- ===== src/Connection/Trusted.antt =====
-- The client sends its own proofs only to a server that it trusts.
use shells.Prelude.{
  if-cases, ◌≡◌, refl, sym, ap, ◌∙◌, ◌⊎◌, inl, inr, ℕ, Bool, true, false, ◌||◌, not, Option, none,
  some, [], ◌∷◌, ◌++◌, arith, if◌then◌else◌, Str, ◌==◌, str_eq, opt_eqb, Bool-cases, subst, is_some,
}
use shells.JsMap.Laws.{beq→eq}
use shells.Connection.Hex.{Bytes}
use shells.Connection.Crypto.{
  WebCrypto, CryptoState, AckError, handle_crypto_ack, IsProved, handle_crypto_ack-IsProved,
  crypto_ready-handle_crypto_ack,
}
use shells.Connection.Handshake.{
  Plain, Conn, Ack, Answers, close, is_stored, check_fingerprint, derive, lock, waited, take_secret,
  ask_secret, resolve_secret_hash, fail, answer, respond, with_hash, authenticate, crypto_ack,
}

-- The stream is usable.
abbrev pub is_ready : Conn → Bool
is_ready c = elim c.crypto [ none ↦ false | some state ↦ state.crypto_ready ]

-- No handshake has used the crypto state, if there is one yet.
abbrev pub IsFresh : Option CryptoState → Type 0
IsFresh none = Unit
IsFresh (some state) = (state.hmac_key ≡ none) × (state.crypto_ready ≡ false)

-- The connection was closed, nothing was sent, and the stream is not usable.
abbrev pub IsRefused : Conn → Conn → Type 0
IsRefused c d =
    (code : Option ℕ) × (d.closes ≡ c.closes ++ code ∷ [])
    × (d.sent ≡ c.sent)
    × (is_ready d ≡ false)

-- The proofs were sent, the stream is usable, and the server has proved that it knows the secret hash
-- that the client holds.
abbrev pub IsAnswered : WebCrypto → Conn → Ack → Conn → Type 0
IsAnswered w c msg d =
    (secret : Bytes) × (d.secret_hash ≡ some secret)
    × IsProved w msg.public_key secret msg.auth_proof
    × (is_ready d ≡ true)
    × (d.closes ≡ c.closes)
    × (proof : Plain) × (d.sent ≡ c.sent ++ proof ∷ [])

-- What the steps before the key agreement leave alone.
abbrev IsKept : Conn → Conn → Type 0
IsKept c d = (d.crypto ≡ c.crypto) × (d.closes ≡ c.closes) × (d.sent ≡ c.sent)

abbrev Outcome : WebCrypto → Conn → Ack → Conn → Type 0
Outcome w c msg d = IsRefused c d ⊎ IsAnswered w c msg d

opt_eqb→eq : (o : Option Str) (s : Str) → opt_eqb o (some s) ≡ true → o ≡ some s
opt_eqb→eq none s h = cc h
opt_eqb→eq (some t) s h = ap some (beq→eq t s h)

module _ (w : WebCrypto) where
  respond-Outcome :
      (c : Conn) (msg : Ack) (secret : Bytes) (state : CryptoState) (error : Option AckError)
      → c.secret_hash ≡ some secret
      → state.crypto_ready ≡ not (is_some error)
      → (error ≡ none → IsProved w msg.public_key secret msg.auth_proof)
      → Outcome w c msg (respond w c msg secret state error)
  unfolding respond fail close
  respond-Outcome c msg secret state none known ready proved =
      inr (secret, known, proved refl, ready, refl, _, refl)
  respond-Outcome c msg secret state (some error) known ready proved =
      inl (none, ground arith, ground arith, ground arith)

  answer-Outcome :
      (c : Conn) (msg : Ack) (secret : Bytes) (o : Option CryptoState)
      → c.crypto ≡ o
      → IsFresh o
      → (msg.auth_proof == []) ≡ false
      → c.secret_hash ≡ some secret
      → Outcome w c msg (answer w c msg secret o)
  unfolding answer
  answer-Outcome c msg secret none e fresh given known = inl (none, refl, refl, rw e)
  answer-Outcome c msg secret (some state) e (fresh, off) given known =
      let r = handle_crypto_ack w state msg.public_key secret msg.auth_proof in
      respond-Outcome c msg secret r.0 r.1 known
        (crypto_ready-handle_crypto_ack w state msg.public_key secret msg.auth_proof off)
        (handle_crypto_ack-IsProved w state msg.public_key secret msg.auth_proof fresh given)

  resolve_secret_hash-Kept :
      (c : Conn) (salt : Str) (ans : Answers) → IsKept c (resolve_secret_hash w c salt ans).0
  unfolding resolve_secret_hash ask_secret take_secret derive waited lock
  resolve_secret_hash-Kept c salt ans = ground arith

  moved : (c d e : Conn) (msg : Ack) → IsKept c d → Outcome w d msg e → Outcome w c msg e
  moved c d e msg (k, l, m) (inl (code, p, q, r)) =
      inl (code, p ∙ ap (λ x. x ++ code ∷ []) l, q ∙ m, r)
  moved c d e msg (k, l, m) (inr (secret, p, q, r, t, proof, u)) =
      inr (secret, p, q, r, t ∙ l, proof, u ∙ ap (λ x. x ++ proof ∷ []) m)

  fresh_state-ready :
      (o : Option CryptoState)
      → IsFresh o
      → elim o [ none ↦ false | some state ↦ state.crypto_ready ] ≡ false
  fresh_state-ready none fresh = refl
  fresh_state-ready (some state) (fresh, off) = off

  close-Outcome :
      (c d : Conn) (msg : Ack) (code : Option ℕ)
      → IsKept c d
      → IsFresh c.crypto
      → Outcome w c msg (close d code)
  unfolding close
  close-Outcome c d msg code (k, l, m) fresh =
      inl (code, ap (λ x. x ++ code ∷ []) l, m, rw k (fresh_state-ready c.crypto fresh))

  with_hash-Outcome :
      (c d : Conn) (msg : Ack) (o : Option Bytes)
      → IsKept c d
      → IsFresh c.crypto
      → (msg.auth_proof == []) ≡ false
      → Outcome w c msg (with_hash w d msg o)
  unfolding with_hash
  with_hash-Outcome c d msg none kept fresh given = close-Outcome c d msg none kept fresh
  with_hash-Outcome c d msg (some secret) kept fresh given =
      let e = record d { secret_hash = some secret } in
      moved c e (answer w e msg secret d.crypto) msg kept
        (answer-Outcome e msg secret d.crypto refl (subst IsFresh (sym kept.0) fresh) given refl)

  authenticate-Outcome :
      (c : Conn) (msg : Ack) (ans : Answers) (o : Option Bytes)
      → c.secret_hash ≡ o
      → IsFresh c.crypto
      → (msg.auth_proof == []) ≡ false
      → Outcome w c msg (authenticate w c msg ans o)
  unfolding authenticate
  authenticate-Outcome c msg ans (some secret) e fresh given =
      answer-Outcome c msg secret c.crypto refl fresh given e
  authenticate-Outcome c msg ans none e fresh given =
      let r = resolve_secret_hash w c msg.salt ans in
      with_hash-Outcome c r.0 msg r.1 (resolve_secret_hash-Kept c msg.salt ans) fresh given

  -- The user has accepted the server's fingerprint: in this handshake, or in an earlier one.
  abbrev pub IsAccepted : Conn → Ack → Answers → Type 0
  IsAccepted c msg ans = (c.stored_fingerprint ≡ some msg.fingerprint) ⊎ (ans.confirmed ≡ true)

  goes_on-IsAccepted :
      (c : Conn) (msg : Ack) (ans : Answers)
      → (check_fingerprint c msg.fingerprint ans.confirmed).1 ≡ true
      → IsAccepted c msg ans
  unfolding check_fingerprint
  goes_on-IsAccepted c msg ans h =
      elim (Bool-cases (opt_eqb c.stored_fingerprint (some msg.fingerprint))) [
        | inl e ↦ inl (opt_eqb→eq c.stored_fingerprint msg.fingerprint e)
        | inr e ↦ elim (Bool-cases ans.confirmed) [ inl f ↦ inr f | inr f ↦ absurd (ground arith) ]
      ]

  check_fingerprint-IsKept :
      (c : Conn) (msg : Ack) (ans : Answers)
      → (check_fingerprint c msg.fingerprint ans.confirmed).1 ≡ true
      → IsKept c (check_fingerprint c msg.fingerprint ans.confirmed).0
  unfolding check_fingerprint
  check_fingerprint-IsKept c msg ans h = ground arith

  check_fingerprint-IsRefused :
      (c : Conn) (msg : Ack) (ans : Answers)
      → (check_fingerprint c msg.fingerprint ans.confirmed).1 ≡ false
      → is_ready c ≡ false
      → IsRefused c (check_fingerprint c msg.fingerprint ans.confirmed).0
  unfolding check_fingerprint close
  check_fingerprint-IsRefused c msg ans h off = (
    if is_stored c.stored_fingerprint then some 4001 else some 4000,
    ground arith,
    ground arith,
    ground arith,
  )

  IsFresh-ready : (c : Conn) → IsFresh c.crypto → is_ready c ≡ false
  IsFresh-ready c fresh = fresh_state-ready c.crypto fresh

  close-IsRefused : (c : Conn) → is_ready c ≡ false → IsRefused c (close c (some 4002))
  unfolding close
  close-IsRefused c off = (some 4002, refl, refl, off)

  accepted :
      (c : Conn) (msg : Ack) (ans : Answers) (d : Conn)
      → IsAccepted c msg ans
      → Outcome w c msg d
      → IsRefused c d ⊎ (IsAnswered w c msg d × IsAccepted c msg ans)
  accepted c msg ans d a (inl refused) = inl refused
  accepted c msg ans d a (inr answered) = inr (answered, a)

  -- A `crypto-ack` that finds no crypto state, or one that no handshake has used, has one of two
  -- outcomes: the connection is closed, nothing is sent and the stream is not usable; or the client's
  -- proofs are sent and the stream is usable, and then the server's fingerprint is the stored one or
  -- the user has confirmed it, and the server's proof over its public key was verified under the
  -- secret hash that the client holds.
  pub crypto_ack_lem :
      (c : Conn) (msg : Ack) (ans : Answers)
      → IsFresh c.crypto
      → IsRefused c (crypto_ack w c msg ans)
        ⊎ (IsAnswered w c msg (crypto_ack w c msg ans) × IsAccepted c msg ans)
  unfolding crypto_ack
  crypto_ack_lem c msg ans fresh =
      let End = λ (d : Conn). IsRefused c d ⊎ (IsAnswered w c msg d × IsAccepted c msg ans) in
      let r = check_fingerprint c msg.fingerprint ans.confirmed in
      let off = IsFresh-ready c fresh in
      if-cases End (msg.auth_proof == [] || msg.auth_challenge == []) _ _
        (λ missing. inl (close-IsRefused c off))
        (λ given.
          if-cases End r.1 _ _
            (λ on.
              let kept = check_fingerprint-IsKept c msg ans on in
              let end = authenticate w r.0 msg ans r.0.secret_hash in
              accepted c msg ans end (goes_on-IsAccepted c msg ans on) (
                moved c r.0 end msg kept (
                  authenticate-Outcome r.0 msg ans r.0.secret_hash refl
                    (subst IsFresh (sym kept.0) fresh) (ground arith))))
            (λ no. inl (check_fingerprint-IsRefused c msg ans no off)))
