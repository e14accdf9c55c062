-- ===== src/Connection/Keyed.antt =====
-- The keys of a stream, and where they come from.
use shells.Prelude.{
  ◌≡◌, refl, sym, ap, ◌∙◌, true, false, Option, none, some, [], subst, arith, Option-cases,
  Bool-cases, inl, inr, Str, ◌==◌, str_eq,
}
use shells.Connection.Hex.{Bytes}
use shells.Connection.Crypto.{
  WebCrypto, CryptoState, AckError, handle_crypto_ack, check_proof, verify_hmac_proof, get_hmac_key,
  keep_hmac_key, is_point, agree, set_keys,
}
use shells.Connection.Handshake.{Ack}

-- The keys of the stream come from the agreement with the public key of the message and from the secret
-- hash, and the message holds a proof over this public key that was verified under the HMAC key of
-- the stream.
abbrev pub IsKeyed : WebCrypto → CryptoState → Bytes → Bytes → Ack → Type 0
IsKeyed w state key secret msg =
    (server_pub : Bytes) × (w.atob msg.public_key ≡ some server_pub)
    × (mac : Bytes) × (w.atob msg.auth_proof ≡ some mac)
    × (w.hmac_verify key mac server_pub ≡ true)
    × (state.hmac_key ≡ some key)
    × (shared : Bytes) × (w.ecdh state.private_key server_pub ≡ some shared)
    × (state ≡ set_keys w state secret server_pub shared)

set_keys_idem :
    (w : WebCrypto) (s : CryptoState) (secret server_pub shared : Bytes)
    → set_keys w s secret server_pub shared
      ≡ set_keys w (set_keys w s secret server_pub shared) secret server_pub shared
unfolding set_keys
set_keys_idem w s secret server_pub shared = refl

set_keys-hmac_key :
    (w : WebCrypto) (s : CryptoState) (secret server_pub shared : Bytes)
    → (set_keys w s secret server_pub shared).hmac_key ≡ s.hmac_key
unfolding set_keys
set_keys-hmac_key w s secret server_pub shared = refl

set_keys-private_key :
    (w : WebCrypto) (s : CryptoState) (secret server_pub shared : Bytes)
    → (set_keys w s secret server_pub shared).private_key ≡ s.private_key
unfolding set_keys
set_keys-private_key w s secret server_pub shared = refl

module _ (w : WebCrypto) where
  agreed :
      (s : CryptoState) (secret server_pub : Bytes)
      → (agree w s secret server_pub).1 ≡ none
      → (shared : Bytes) × (w.ecdh s.private_key server_pub ≡ some shared)
        × ((agree w s secret server_pub).0 ≡ set_keys w s secret server_pub shared)
  unfolding agree
  agreed s secret server_pub h = elim (Option-cases (w.ecdh s.private_key server_pub)) [
    | inl e ↦ absurd (ground arith)
    | inr (shared, e) ↦ (shared, e, ground arith)
  ]

  agree-IsKeyed :
      (s : CryptoState) (key secret server_pub mac : Bytes) (msg : Ack)
      → w.atob msg.public_key ≡ some server_pub
      → w.atob msg.auth_proof ≡ some mac
      → w.hmac_verify key mac server_pub ≡ true
      → s.hmac_key ≡ some key
      → (agree w s secret server_pub).1 ≡ none
      → IsKeyed w (agree w s secret server_pub).0 key secret msg
  agree-IsKeyed s key secret server_pub mac msg e f g k h =
      let (shared, p, q) = agreed s secret server_pub h in
      rw q (
        server_pub,
        e,
        mac,
        f,
        g,
        set_keys-hmac_key w s secret server_pub shared ∙ k,
        shared,
        ap (λ x. w.ecdh x server_pub) (set_keys-private_key w s secret server_pub shared) ∙ p,
        set_keys_idem w s secret server_pub shared,
      )

  by_result :
      {r r' : CryptoState × Option AckError} (key secret : Bytes) (msg : Ack)
      → r ≡ r'
      → (r'.1 ≡ none → IsKeyed w r'.0 key secret msg)
      → r.1 ≡ none
      → IsKeyed w r.0 key secret msg
  by_result key secret msg e f h =
      subst (λ r. r.1 ≡ none → IsKeyed w r.0 key secret msg) (sym e) f h

  the_agreed :
      (s : CryptoState) (secret server_pub : Bytes) (proof : Str) (mac : Bytes)
      → (proof == []) ≡ false
      → w.atob proof ≡ some mac
      → w.hmac_verify (get_hmac_key s secret) mac server_pub ≡ true
      → check_proof w s secret server_pub proof ≡ agree w (keep_hmac_key s secret) secret server_pub
  unfolding check_proof verify_hmac_proof
  the_agreed s secret server_pub proof mac given f g = rw (given, f, g) refl

  the_checked :
      (old : CryptoState) (public_key : Str) (secret : Bytes) (proof : Str) (server_pub : Bytes)
      → w.atob public_key ≡ some server_pub
      → is_point server_pub ≡ true
      → handle_crypto_ack w old public_key secret proof
        ≡ check_proof w (record old { secret_hash = some secret }) secret server_pub proof
  unfolding handle_crypto_ack
  the_checked old public_key secret proof server_pub e p = ground arith

  check_proof-IsKeyed :
      (s : CryptoState) (secret server_pub : Bytes) (msg : Ack)
      → w.atob msg.public_key ≡ some server_pub
      → (msg.auth_proof == []) ≡ false
      → (check_proof w s secret server_pub msg.auth_proof).1 ≡ none
      → IsKeyed w
          (check_proof w s secret server_pub msg.auth_proof).0
          (get_hmac_key s secret)
          secret
          msg
  unfolding check_proof verify_hmac_proof
  check_proof-IsKeyed s secret server_pub msg e given h =
      elim (Option-cases (w.atob msg.auth_proof)) [
        | inl f ↦ absurd (ground (arith, f, given, h))
        | inr (mac, f) ↦ elim (Bool-cases (w.hmac_verify (get_hmac_key s secret) mac server_pub)) [
          | inl g ↦
              by_result (get_hmac_key s secret) secret msg
                (the_agreed s secret server_pub msg.auth_proof mac given f g)
                (agree-IsKeyed (keep_hmac_key s secret) (get_hmac_key s secret) secret server_pub
                  mac msg e f g refl)
                h
          | inr g ↦ absurd (ground (arith, f, given, h, g))
        ]
      ]

  -- A key agreement that ends without an error has checked the proof over the server's public key, and has
  -- made the keys from that public key.
  pub handle_crypto_ack-IsKeyed :
      (old : CryptoState) (secret : Bytes) (msg : Ack)
      → (msg.auth_proof == []) ≡ false
      → (handle_crypto_ack w old msg.public_key secret msg.auth_proof).1 ≡ none
      → IsKeyed w
          (handle_crypto_ack w old msg.public_key secret msg.auth_proof).0
          (get_hmac_key old secret)
          secret
          msg
  unfolding handle_crypto_ack get_hmac_key
  handle_crypto_ack-IsKeyed old secret msg given h = elim (Option-cases (w.atob msg.public_key)) [
    | inl e ↦ absurd (ground arith)
    | inr (server_pub, e) ↦ elim (Bool-cases (is_point server_pub)) [
      | inl p ↦
          by_result (get_hmac_key old secret) secret msg
            (the_checked old msg.public_key secret msg.auth_proof server_pub e p)
            (check_proof-IsKeyed (record old { secret_hash = some secret }) secret server_pub msg e
              given)
            h
      | inr p ↦ absurd (ground arith)
    ]
  ]
