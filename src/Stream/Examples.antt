-- ===== src/Stream/Examples.antt =====
-- A cipher that appends its key, cut or filled to sixteen bytes, in place of the tag, and two messages.
use shells.Prelude.{
  ◌≡◌, refl, ℕ, zero, suc, ◌-◌, true, none, some, List, [], ◌∷◌, ◌++◌, length, take, drop, Str,
  replicate, map, codes, arith, ◌≤◌, length-append, ◌∙◌, ap,
}
use shells.Connection.Hex.{Bytes, AreBytes}
use shells.Connection.Crypto.{CryptoState}
use shells.Connection.Sid.{buffer_to_sid}
use shells.Stream.{Cipher, text, data_bytes, WsMsg, data_msg, control_msg, frame}
use shells.Stream.Sending.{
  Sender, call, job_begins, job_ends, socket_closes, SendStep, send_steps, accepted_msgs,
}
use shells.Stream.Sent.{AreFramesOf, flying_msgs, send_steps_lem}
use shells.Stream.Drained.{jobs, sealed, drained_lem}
use shells.Stream.Receiving.{
  data_in, incoming, received, arrives, decrypt_ends, handles, ReceiveStep, receive_steps,
}
use shells.Stream.Handled.{content, arrivals, receive_steps_lem}
use shells.Stream.Frames.{server_data, take-append, frame_lem}

abbrev tag : Bytes
tag = replicate 16 7

abbrev toy : Cipher
toy = record {
  seal = λ key nonce m. m ++ tag;
  unseal = λ key nonce c. some (take (length c - 16) c);
  utf8 = λ s. s;
  utf8_decode = λ b. b;
}

abbrev keys : CryptoState
keys = record {
  private_key = [];
  raw_public_key = [];
  secret_hash = none;
  hmac_key = none;
  enc_key = some (5 ∷ []);
  dec_key = some (5 ∷ []);
  api_key = none;
  crypto_ready = true;
}

abbrev nonce_one : Bytes
nonce_one = replicate 12 1

abbrev id_bytes : Bytes
id_bytes = replicate 16 10

abbrev typed_ls : WsMsg
typed_ls = data_msg (buffer_to_sid id_bytes) (text (codes "ls"))

abbrev idle : Sender
idle = record {
  is_open = true;
  ws_ready = true;
  crypto = some keys;
  queue = [];
  flying = none;
  sent = [];
}

abbrev story : List SendStep
story =
    call typed_ls
    ∷ (call (control_msg (codes "{}")) ∷ (job_begins nonce_one ∷ (socket_closes ∷ (job_ends ∷ []))))

send_steps_lem_example :
    (ended : List WsMsg) × (accepted_msgs toy story idle
      ≡ ended
        ++ (flying_msgs toy (send_steps toy story idle).flying
            ++ (send_steps toy story idle).queue))
    × AreFramesOf toy (send_steps toy story idle).sent ended
send_steps_lem_example = send_steps_lem toy story idle (refl, refl, refl)

abbrev full : Sender
full = record idle { queue = typed_ls ∷ (control_msg (codes "{}") ∷ []) }

drained_lem_example :
    let s' = send_steps toy (jobs (nonce_one ∷ (replicate 12 2 ∷ []))) full in
    (s'.queue ≡ [])
    × (s'.flying ≡ none)
    × (s'.sent ≡ [] ++ sealed toy (5 ∷ []) (nonce_one ∷ (replicate 12 2 ∷ [])) full.queue)
drained_lem_example =
    drained_lem toy keys (5 ∷ []) (nonce_one ∷ (replicate 12 2 ∷ [])) full refl refl
      (refl, refl, refl, refl)

abbrev two_frames : List ReceiveStep
two_frames =
    arrives (0 ∷ (nonce_one ++ (id_bytes ++ tag)))
    ∷ (arrives (1 ∷ (nonce_one ++ tag))
        ∷ (decrypt_ends 1 ∷ (handles ∷ (decrypt_ends 0 ∷ (handles ∷ [])))))

receive_steps_lem_example :
    let r =
      receive_steps toy two_frames (record { crypto = some keys; waiting = []; handled = [] }) in
    r.handled ++ map (received toy (some keys)) r.waiting
    ≡ map (content toy (some keys)) (arrivals two_frames)
receive_steps_lem_example = receive_steps_lem toy (some keys) two_frames

toy_seals :
    (key : Bytes) (m : Bytes)
    → (toy.unseal key nonce_one (m ++ tag) ≡ some m) × (16 ≤ length (toy.seal key nonce_one m))
toy_seals key m = (
  ap some (
      ap (λ n. take n (m ++ tag)) (omega (arith, length-append m tag))
      ∙ take-append m tag (length m) refl),
  omega (arith, length-append m tag),
)

id_bytes-AreBytes : (n : ℕ) → AreBytes (replicate n 10)
id_bytes-AreBytes zero = tt
id_bytes-AreBytes (suc n) = (omega arith, id_bytes-AreBytes n)

-- The keys of the two directions differ.
abbrev two_keys : CryptoState
two_keys = record keys { enc_key = some (5 ∷ []); dec_key = some (6 ∷ []) }

frame_lem_example :
    (sid : Str) × (received toy
        (some two_keys)
        (incoming toy (some two_keys) (server_data toy (6 ∷ []) nonce_one id_bytes (codes "ok")))
      ≡ data_in sid (codes "ok"))
    × (rest : Bytes) × (frame toy (some two_keys) nonce_one (data_msg sid (text (codes "ls")))
        ≡ some (0 ∷ rest))
    × (toy.unseal (5 ∷ []) (take 12 rest) (drop 12 rest) ≡ some (id_bytes ++ codes "ls"))
unfolding data_bytes
frame_lem_example =
    frame_lem toy two_keys (5 ∷ []) (6 ∷ []) (refl, refl, refl) nonce_one nonce_one id_bytes
      (codes "ok") (text (codes "ls")) (toy_seals (6 ∷ [])) (toy_seals (5 ∷ [])) refl refl refl
      (id_bytes-AreBytes 16)
