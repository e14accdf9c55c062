-- ===== src/Connection/Handshake.antt =====
-- The handshake: `resolveSecretHash` and the branch `crypto-ack` of `getWs` in
-- `public/js/shell-sessions.js`.
use shells.Prelude.{
  ℕ, Bool, true, false, ◌&&◌, ◌||◌, not, Option, none, some, List, [], ◌∷◌, ◌++◌, if◌then◌else◌,
  Str, ◌==◌, str_eq, opt_eqb,
}
use shells.Recents.Commands.{is_space}
use shells.Connection.Hex.{Bytes, hex_to_bytes, bytes_to_hex}
use shells.Connection.Crypto.{
  WebCrypto, CryptoState, AckError, auth_failed, handle_crypto_ack, generate_hmac_proof,
}

-- A message of the client that is not encrypted.
pub data Plain : Type 0 where
  init_crypto : Bytes → Plain
  crypto_ready : Str → Str → Plain

-- The client's side of the connection. `closes` are the codes of the calls of `close` on this socket, none
-- where the call gives no code; the four fields `stored_...` and `lock_req` stand in the browser's storage.
pub record Conn : Type 0 where
  pub stored_fingerprint : Option Str
  pub stored_hash : Option Str
  pub stored_salt : Option Str
  pub lock_req : Bool
  pub secret_hash : Option Bytes
  pub secret_cancelled : Bool
  pub lock_pending : Bool
  pub crypto : Option CryptoState
  pub ws_ready : Bool
  pub session_token : Option Str
  pub reconnect_delay : Option ℕ
  pub reconnect_timer : Option ℕ
  pub shown_seconds : Option ℕ
  pub closes : List (Option ℕ)
  pub sent : List Plain

-- The message `crypto-ack`; a field that is missing is the empty text.
pub record Ack : Type 0 where
  pub public_key : Str
  pub auth_proof : Str
  pub auth_challenge : Str
  pub fingerprint : Str
  pub salt : Str

-- What the user answers to the dialogs of one handshake, where a prompt that is cancelled gives none; and
-- whether the page is locked while the handshake waits for the secret. A lock in the dialog of the
-- fingerprint is like one before the handshake, which reads nothing that `lock` changes until then.
pub record Answers : Type 0 where
  pub confirmed : Bool
  pub first_secret : Option Str
  pub second_secret : Option Str
  pub locked : Bool

unfoldable pub close : Conn → Option ℕ → Conn
close c code = record c { closes = c.closes ++ code ∷ [] }

-- `lock`, up to the reload of the page.
unfoldable pub lock : Conn → Conn
lock c = record c {
  lock_pending = true;
  stored_hash = none;
  stored_salt = none;
  secret_hash = none;
  session_token = none;
  lock_req = true;
}

-- `s.trim().length === 0`
unfoldable pub all_space : Str → Bool
unfolding is_space
all_space [] = true
all_space (c ∷ s) = is_space c && all_space s

unfoldable pub is_blank : Option Str → Bool
unfolding all_space
is_blank none = true
is_blank (some s) = all_space s

-- A fingerprint that is stored and not the empty text.
unfoldable pub is_stored : Option Str → Bool
is_stored none = false
is_stored (some fp) = not (fp == [])

-- The fingerprint of the server, against the stored one: whether the handshake goes on.
unfoldable pub check_fingerprint : Conn → Str → Bool → Conn × Bool
unfolding close is_stored
check_fingerprint c fingerprint confirmed =
    if opt_eqb c.stored_fingerprint (some fingerprint) && is_stored c.stored_fingerprint
    then (c, true)
    else if confirmed
    then (record c { stored_fingerprint = some fingerprint }, true)
    else if is_stored c.stored_fingerprint
    then (close c (some 4001), false)
    else (close c (some 4000), false)

-- The derivation from the typed secret, which is kept in storage unless a lock is on its way.
unfoldable pub derive : WebCrypto → Conn → Str → Str → Conn × Option Bytes
unfolding hex_to_bytes bytes_to_hex
derive w c salt secret =
    let hash = w.pbkdf2 (w.utf8 secret) (hex_to_bytes salt) in
    if c.lock_pending
    then (c, some hash)
    else (record c { stored_hash = some (bytes_to_hex hash); stored_salt = some salt }, some hash)

-- What the page is when the prompts and the derivation have ended: other tasks run in between.
unfoldable pub waited : Conn → Bool → Conn
unfolding lock
waited c locked = if locked then lock c else c

-- After the prompts, on the last answer.
unfoldable pub take_secret : WebCrypto → Conn → Str → Option Str → Conn × Option Bytes
unfolding derive all_space
take_secret w c salt none = (record c { secret_cancelled = true }, none)
take_secret w c salt (some secret) =
    if all_space secret
    then (record c { secret_cancelled = true }, none)
    else derive w c salt secret

-- The first answer that is not blank.
unfoldable pub ask_secret : WebCrypto → Conn → Str → Answers → Conn × Option Bytes
unfolding take_secret waited is_blank
ask_secret w c salt ans =
    take_secret w (waited c ans.locked) salt
      (if is_blank ans.first_secret then ans.second_secret else ans.first_secret)

-- `resolveSecretHash`: a cached hash is taken where it was made with the salt of the server.
unfoldable pub resolve_secret_hash : WebCrypto → Conn → Str → Answers → Conn × Option Bytes
unfolding ask_secret hex_to_bytes is_stored
resolve_secret_hash w c salt ans = elim c.stored_hash [
  | none ↦ ask_secret w c salt ans
  | some hash ↦
      if not (hash == []) && opt_eqb c.stored_salt (some salt)
      then (c, some (hex_to_bytes hash))
      else ask_secret w c salt ans
]

-- The catch block: after a failed proof of the server the secret is forgotten.
unfoldable pub fail : Conn → Bool → Conn
unfolding close
fail c wrong_secret =
    close
      (if wrong_secret
        then record c { stored_hash = none; stored_salt = none; secret_hash = none }
        else c)
      none

abbrev pub is_auth_failed : AckError → Bool
is_auth_failed auth_failed = true
is_auth_failed _ = false

-- The client's own proofs: over its public key, and over the server's challenge.
unfoldable pub proofs : WebCrypto → CryptoState → Bytes → Str → Plain
unfolding generate_hmac_proof
proofs w state secret challenge =
    crypto_ready (generate_hmac_proof w state secret state.raw_public_key)
      (generate_hmac_proof w state secret (w.utf8 challenge))

-- After `handleCryptoAck`, with the error that it has thrown.
unfoldable pub respond : WebCrypto → Conn → Ack → Bytes → CryptoState → Option AckError → Conn
unfolding proofs fail
respond w c msg secret state none = record c {
  crypto = some state;
  sent = c.sent ++ proofs w state secret msg.auth_challenge ∷ [];
}
respond w c msg secret state (some error) =
    fail (record c { crypto = some state }) (is_auth_failed error)

-- From `handleCryptoAck` on, on `this.cryptoState`. Without one the handler throws.
unfoldable pub answer : WebCrypto → Conn → Ack → Bytes → Option CryptoState → Conn
unfolding handle_crypto_ack respond fail
answer w c msg secret none = fail c false
answer w c msg secret (some old) =
    let (state, error) = handle_crypto_ack w old msg.public_key secret msg.auth_proof in
    respond w c msg secret state error

-- After `resolveSecretHash`.
unfoldable pub with_hash : WebCrypto → Conn → Ack → Option Bytes → Conn
unfolding answer close
with_hash w c msg none = close c none
with_hash w c msg (some secret) =
    answer w (record c { secret_hash = some secret }) msg secret c.crypto

-- After the check of the fingerprint, on `this._secretHash`.
unfoldable pub authenticate : WebCrypto → Conn → Ack → Answers → Option Bytes → Conn
unfolding resolve_secret_hash with_hash answer
authenticate w c msg ans (some secret) = answer w c msg secret c.crypto
authenticate w c msg ans none =
    let (d, hash) = resolve_secret_hash w c msg.salt ans in with_hash w d msg hash

-- The branch `crypto-ack` of the message handler.
unfoldable pub crypto_ack : WebCrypto → Conn → Ack → Answers → Conn
unfolding check_fingerprint authenticate close
crypto_ack w c msg ans =
    if msg.auth_proof == [] || msg.auth_challenge == []
    then close c (some 4002)
    else let (d, goes_on) = check_fingerprint c msg.fingerprint ans.confirmed in
      if goes_on then authenticate w d msg ans d.secret_hash else d
