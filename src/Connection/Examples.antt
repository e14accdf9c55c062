-- ===== src/Connection/Examples.antt =====
-- Concrete connections. The cryptography of the tests leaves every text as it is: a proof is the key
-- and the message behind each other.
use shells.Connection.Fetch.{Response, parsed, on_response, Succeeds, on_response_lem}
use shells.Prelude.{
  ◌↔◌, Str, ◌≡◌, ◌⊎◌, refl, ◌++◌, true, false, none, some, [], ◌∷◌, codes, arith, replicate, ◌==◌,
  str_eq,
}
use shells.Connection.Hex.{Bytes, AreBytes}
use shells.Connection.Sid.{buffer_to_sid}
use shells.Connection.Crypto.{WebCrypto, CryptoState, handle_crypto_ack}
use shells.Connection.Handshake.{Conn, Ack, Answers, crypto_ack}
use shells.Connection.Trusted.{IsRefused, IsAnswered, IsAccepted, crypto_ack_lem, is_ready}
use shells.Connection.Socket.{ack, control, auth_success, on_open, on_message}
use shells.Connection.Login.{IsTrusted, Reachable, start, opens, receives}
use shells.Connection.Reached.{logged_in-IsTrusted}

abbrev sample : Bytes
sample = 0 ∷ (255 ∷ (16 ∷ (9 ∷ [])))

sample-AreBytes : AreBytes sample
sample-AreBytes = (omega arith, (omega arith, (omega arith, (omega arith, tt))))

abbrev sid_bytes : Bytes
sid_bytes = sample ++ (sample ++ (sample ++ sample))

sid_text : buffer_to_sid sid_bytes ≡ codes "00ff1009-00ff-1009-00ff-100900ff1009"
unfolding buffer_to_sid
sid_text = refl

abbrev plain_crypto : WebCrypto
plain_crypto = record {
  atob = λ s. some s;
  btoa = λ b. b;
  hmac = λ key msg. key ++ msg;
  hmac_verify = λ key mac msg. mac == (key ++ msg);
  imports_key = λ key. true;
  ecdh = λ private_key public_key. some (replicate 32 7);
  sha256 = λ b. b;
  hkdf = λ key salt label n. salt ++ label;
  pbkdf2 = λ secret salt. secret ++ salt;
  utf8 = λ s. s;
}

abbrev server_key : Bytes
server_key = 4 ∷ replicate 64 1

abbrev opened : CryptoState
opened = record {
  private_key = 3 ∷ [];
  raw_public_key = 5 ∷ [];
  secret_hash = none;
  hmac_key = none;
  enc_key = none;
  dec_key = none;
  api_key = none;
  crypto_ready = false;
}

abbrev fresh_page : Conn
fresh_page = record {
  stored_fingerprint = none;
  stored_hash = none;
  stored_salt = none;
  lock_req = false;
  secret_hash = none;
  secret_cancelled = false;
  lock_pending = false;
  crypto = some opened;
  ws_ready = false;
  session_token = none;
  reconnect_delay = none;
  reconnect_timer = none;
  shown_seconds = none;
  closes = [];
  sent = [];
}

abbrev message : Ack
message = record {
  public_key = server_key;
  auth_proof = codes "key" ++ (17 ∷ server_key);
  auth_challenge = codes "challenge";
  fingerprint = codes "aa:bb";
  salt = codes "11";
}

abbrev accepts : Answers
accepts = record {
  confirmed = true;
  first_secret = some (codes "  ");
  second_secret = some (codes "key");
  locked = false;
}

-- The page is locked while the second prompt is open.
abbrev accepts_locked : Answers
accepts_locked = record accepts { locked = true }

-- The first prompt is left blank, and the second one holds the secret: the handshake succeeds.
handshake_succeeds : is_ready (crypto_ack plain_crypto fresh_page message accepts) ≡ true
unfolding crypto_ack
handshake_succeeds = refl

crypto_ack_lem_example :
    IsRefused fresh_page (crypto_ack plain_crypto fresh_page message accepts)
    ⊎ (IsAnswered plain_crypto fresh_page message
          (crypto_ack plain_crypto fresh_page message accepts)
        × IsAccepted plain_crypto fresh_page message accepts)
crypto_ack_lem_example = crypto_ack_lem plain_crypto fresh_page message accepts (refl, refl)

agreed :
    (handle_crypto_ack plain_crypto opened server_key (codes "key") (codes "key" ++ server_key)).1
    ≡ none
unfolding handle_crypto_ack
agreed = refl

-- A page that connects, shakes hands and is told that the login has succeeded.
abbrev without_socket : Conn
without_socket = record fresh_page { crypto = none }

abbrev connected : Conn
connected = on_open without_socket (3 ∷ []) (5 ∷ [])

abbrev shaken : Conn
shaken = on_message plain_crypto connected (ack message accepts)

abbrev logged : Conn
logged = on_message plain_crypto shaken (control (auth_success (codes "token")))

shaken_open : shaken.closes ≡ []
unfolding on_message on_open
shaken_open = refl

logged_on : logged.ws_ready ≡ true
unfolding on_message on_open
logged_on = refl

logged_open : logged.closes ≡ []
unfolding on_message on_open
logged_open = refl

connected_open : connected.closes ≡ []
unfolding on_open
connected_open = refl

logged-Reachable :
    Reachable plain_crypto (message ∷ []) (some (codes "key" ++ (17 ∷ [])) ∷ []) logged
unfolding on_open crypto_ack
logged-Reachable =
    receives (control (auth_success (codes "token")))
      (receives (ack message accepts)
        (opens (3 ∷ []) (5 ∷ []) (start {c = without_socket} refl refl refl) refl) connected_open)
      shaken_open

logged_in-IsTrusted_example :
    IsTrusted plain_crypto (message ∷ []) (some (codes "key" ++ (17 ∷ [])) ∷ []) logged
logged_in-IsTrusted_example =
    logged_in-IsTrusted plain_crypto (message ∷ []) (some (codes "key" ++ (17 ∷ [])) ∷ []) logged
      logged-Reachable logged_on logged_open

-- The lock comes while the handshake waits, which then goes on with the secret.
abbrev shaken_locked : Conn
shaken_locked = on_message plain_crypto connected (ack message accepts_locked)

locked_ready : is_ready shaken_locked ≡ true
unfolding on_message on_open
locked_ready = refl

-- Data that are an error text.
abbrev refused : Response Str
refused = record { status = 200; body = parsed (codes "busy") }

abbrev itself : Str → Str
itself text = text

on_response_lem_example :
    (((on_response itself refused).ok ≡ true) ↔ Succeeds itself refused)
    × (((on_response itself refused).ok ≡ true) ↔ ((on_response itself refused).error ≡ none))
on_response_lem_example = on_response_lem itself refused
