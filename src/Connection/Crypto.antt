-- ===== src/Connection/Crypto.antt =====
-- The key agreement of `public/js/crypto.js`. The browser's cryptography is a parameter; a call that
-- it rejects gives none.
use shells.Prelude.{
  ◌≡◌, ℕ, Bool, true, false, ◌&&◌, not, Option, none, some, [], ◌++◌, arith, eqb, if◌then◌else◌,
  length, get_elem?, Str, codes, ◌==◌, nat_eq, str_eq, opt_eqb, is_some, Option-cases, Bool-cases,
  inl, inr,
}
use shells.Connection.Hex.{Bytes}

-- `crypto.subtle`, `btoa` and `atob`, and the text encoder.
pub record WebCrypto : Type 0 where
  pub atob : Str → Option Bytes
  pub btoa : Bytes → Str
  pub hmac : Bytes → Bytes → Bytes
  pub hmac_verify : Bytes → Bytes → Bytes → Bool
  pub imports_key : Bytes → Bool
  pub ecdh : Bytes → Bytes → Option Bytes
  pub sha256 : Bytes → Bytes
  pub hkdf : Bytes → Bytes → Bytes → ℕ → Bytes
  pub pbkdf2 : Bytes → Bytes → Bytes
  pub utf8 : Str → Bytes

-- The object of `createCryptoState`; a key pair is its private part and its raw public part.
pub record CryptoState : Type 0 where
  pub private_key : Bytes
  pub raw_public_key : Bytes
  pub secret_hash : Option Bytes
  pub hmac_key : Option Bytes
  pub enc_key : Option Bytes
  pub dec_key : Option Bytes
  pub api_key : Option Bytes
  pub crypto_ready : Bool

-- The errors that `handleCryptoAck` throws itself, and those of the browser.
pub data AckError : Type 0 where
  invalid_key : AckError
  auth_failed : AckError
  invalid_secret : AckError
  rejected : AckError

-- `createCryptoState`, with the generated key pair.
unfoldable pub create_crypto_state : Bytes → Bytes → CryptoState
create_crypto_state private_key raw = record {
  private_key = private_key;
  raw_public_key = raw;
  secret_hash = none;
  hmac_key = none;
  enc_key = none;
  dec_key = none;
  api_key = none;
  crypto_ready = false;
}

-- The key of `getHmacKey`, which is made of the secret hash once and kept.
unfoldable pub get_hmac_key : CryptoState → Bytes → Bytes
get_hmac_key state secret = elim state.hmac_key [ none ↦ secret | some key ↦ key ]

abbrev pub keep_hmac_key : CryptoState → Bytes → CryptoState
keep_hmac_key state secret = record state { hmac_key = some (get_hmac_key state secret) }

-- `shells-v3-c2s`, `shells-v3-s2c` and `shells-v3-api`.
abbrev pub info : WebCrypto → Str → Bytes → Bytes → Bytes
info w label server_pub client_pub = w.utf8 label ++ w.sha256 (server_pub ++ client_pub)

abbrev pub derived : WebCrypto → Str → Bytes → Bytes → Bytes → Bytes → Bytes
derived w label shared salt server_pub client_pub =
    w.hkdf shared salt (info w label server_pub client_pub) 32

unfoldable pub set_keys : WebCrypto → CryptoState → Bytes → Bytes → Bytes → CryptoState
set_keys w state secret server_pub shared =
    let raw = state.raw_public_key in
    record state {
      enc_key = some (derived w (codes "shells-v3-c2s") shared secret server_pub raw);
      dec_key = some (derived w (codes "shells-v3-s2c") shared secret server_pub raw);
      api_key = some (derived w (codes "shells-v3-api") shared secret server_pub raw);
      crypto_ready = true;
    }

-- From `importKey` of the server's key on.
unfoldable pub agree : WebCrypto → CryptoState → Bytes → Bytes → CryptoState × Option AckError
unfolding set_keys
agree w state secret server_pub =
    if not (w.imports_key server_pub)
    then (state, some rejected)
    else elim (w.ecdh state.private_key server_pub) [
      | none ↦ (state, some rejected)
      | some shared ↦
          if not (eqb (length shared) 32)
          then (state, some invalid_secret)
          else (set_keys w state secret server_pub shared, none)
    ]

abbrev pub is_point : Bytes → Bool
is_point server_pub = eqb (length server_pub) 65 && opt_eqb (get_elem? server_pub 0) (some 4)

-- Whether `verifyHMACProof` accepts; a proof that is not base64 throws.
unfoldable pub verify_hmac_proof : WebCrypto → CryptoState → Bytes → Bytes → Str → Option Bool
unfolding get_hmac_key
verify_hmac_proof w state secret server_pub proof = elim (w.atob proof) [
  | none ↦ none
  | some mac ↦ some (w.hmac_verify (get_hmac_key state secret) mac server_pub)
]

unfoldable pub check_proof :
    WebCrypto → CryptoState → Bytes → Bytes → Str → CryptoState × Option AckError
unfolding verify_hmac_proof agree
check_proof w state secret server_pub proof =
    if proof == []
    then agree w state secret server_pub
    else elim (verify_hmac_proof w state secret server_pub proof) [
      | none ↦ (keep_hmac_key state secret, some rejected)
      | some false ↦ (keep_hmac_key state secret, some auth_failed)
      | some true ↦ agree w (keep_hmac_key state secret) secret server_pub
    ]

-- `handleCryptoAck`: the state afterwards, and the error where it throws one.
unfoldable pub handle_crypto_ack :
    WebCrypto → CryptoState → Str → Bytes → Str → CryptoState × Option AckError
unfolding check_proof
handle_crypto_ack w old public_key secret proof =
    let state = record old { secret_hash = some secret } in
    elim (w.atob public_key) [
      | none ↦ (state, some rejected)
      | some server_pub ↦
          if not (is_point server_pub)
          then (state, some invalid_key)
          else check_proof w state secret server_pub proof
    ]

-- `generateHMACProof`, where the secret hash is known.
unfoldable pub generate_hmac_proof : WebCrypto → CryptoState → Bytes → Bytes → Str
unfolding get_hmac_key
generate_hmac_proof w state secret msg = w.btoa (w.hmac (get_hmac_key state secret) msg)

-- The server has proved that it knows the secret hash, by a proof over its public key.
abbrev pub IsProved : WebCrypto → Str → Bytes → Str → Type 0
IsProved w public_key secret proof =
    (server_pub : Bytes) × (w.atob public_key ≡ some server_pub)
    × (mac : Bytes) × (w.atob proof ≡ some mac)
    × (w.hmac_verify secret mac server_pub ≡ true)

-- A key agreement that ends without an error, with a proof that is not empty and a state just made,
-- has checked the server's proof over its own public key under the secret hash.
pub handle_crypto_ack-IsProved :
    (w : WebCrypto) (state : CryptoState) (public_key : Str) (secret : Bytes) (proof : Str)
    → state.hmac_key ≡ none
    → (proof == []) ≡ false
    → (handle_crypto_ack w state public_key secret proof).1 ≡ none
    → IsProved w public_key secret proof
unfolding handle_crypto_ack check_proof verify_hmac_proof get_hmac_key
handle_crypto_ack-IsProved w state public_key secret proof fresh given h =
    elim (Option-cases (w.atob public_key)) [
      | inl e ↦ absurd (ground arith)
      | inr (server_pub, e) ↦ elim (Option-cases (w.atob proof)) [
        | inl f ↦ absurd (ground arith)
        | inr (mac, f) ↦ elim (Bool-cases (w.hmac_verify secret mac server_pub)) [
          | inl g ↦ (server_pub, e, mac, f, g)
          | inr g ↦ absurd (ground arith)
        ]
      ]
    ]

-- Only a key agreement that ends without an error makes the stream usable.
pub crypto_ready-handle_crypto_ack :
    (w : WebCrypto) (state : CryptoState) (public_key : Str) (secret : Bytes) (proof : Str)
    → state.crypto_ready ≡ false
    → (handle_crypto_ack w state public_key secret proof).0.crypto_ready
      ≡ not (is_some (handle_crypto_ack w state public_key secret proof).1)
unfolding handle_crypto_ack check_proof agree set_keys
crypto_ready-handle_crypto_ack w state public_key secret proof off = ground arith
