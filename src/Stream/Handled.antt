-- ===== src/Stream/Handled.antt =====
-- The frames are handled in the order of their arrival.
use shells.Prelude.{
  ◌≡◌, refl, sym, ap, ◌∙◌, ℕ, zero, suc, ◌||◌, not, Option, List, [], ◌∷◌, ◌++◌, map, append-nil,
  append_assoc, if◌then◌else◌, is_some, drop, Bool-cases, inl, inr, if-cases,
}
use shells.Connection.Hex.{Bytes}
use shells.Connection.Crypto.{CryptoState}
use shells.Connection.Socket.{ready_state}
use shells.Stream.{Cipher, decrypt}
use shells.Stream.Receiving.{
  Received, dropped, Incoming, Receiver, incoming, by_type, received, handle_next, handle_front,
  end_decrypt, ReceiveStep, arrives, decrypt_ends, handles, receive_steps,
}

-- The frames that arrive.
abbrev pub arrivals : List ReceiveStep → List Bytes
arrivals [] = []
arrivals (arrives raw ∷ steps) = raw ∷ arrivals steps
arrivals (decrypt_ends i ∷ steps) = arrivals steps
arrivals (handles ∷ steps) = arrivals steps

-- What a frame holds under the keys.
abbrev pub content : Cipher → Option CryptoState → Bytes → Received
content w crypto raw =
    if ready_state crypto then by_type w raw (decrypt w crypto (drop 1 raw)) else dropped

module _ (w : Cipher) (crypto : Option CryptoState) where
  pub received-incoming :
      (raw : Bytes) → received w crypto (incoming w crypto raw) ≡ content w crypto raw
  unfolding received incoming
  received-incoming raw = elim (Bool-cases (ready_state crypto)) [
    | inl e ↦ rw e refl
    | inr e ↦ rw e refl
  ]

  map-end_decrypt :
      (i : ℕ) (xs : List Incoming)
      → map (received w crypto) (end_decrypt i xs) ≡ map (received w crypto) xs
  unfolding end_decrypt received
  map-end_decrypt i [] = refl
  map-end_decrypt zero (inc ∷ rest) = refl
  map-end_decrypt (suc i) (inc ∷ rest) = ap (received w crypto inc ∷◌) (map-end_decrypt i rest)

  map-snoc :
      (xs : List Incoming) (x : Incoming)
      → map (received w crypto) (xs ++ (x ∷ []))
        ≡ map (received w crypto) xs ++ (received w crypto x ∷ [])
  map-snoc [] x = refl
  map-snoc (y ∷ ys) x = ap (received w crypto y ∷◌) (map-snoc ys x)

-- What was handled and what the waiting frames will give.
abbrev all_of : Cipher → Receiver → List Received
all_of w r = r.handled ++ map (received w r.crypto) r.waiting

-- The keys and the whole stay as they are.
abbrev IsKept : Cipher → Receiver → Receiver → Type 0
IsKept w r r' = (all_of w r' ≡ all_of w r) × (r'.crypto ≡ r.crypto)

handle_front-IsKept :
    (w : Cipher) (xs : List Incoming) (r : Receiver)
    → r.waiting ≡ xs
    → IsKept w r (handle_front w xs r)
unfolding handle_front
handle_front-IsKept w [] r e = (refl, refl)
handle_front-IsKept w (inc ∷ rest) r e =
    if-cases (IsKept w r) (inc.ended || not (is_some inc.pre))
      (record r { waiting = rest; handled = r.handled ++ (received w r.crypto inc ∷ []) }) r
      (λ _. (
        append_assoc r.handled (received w r.crypto inc ∷ []) (map (received w r.crypto) rest)
            ∙ ap (λ l. r.handled ++ map (received w r.crypto) l) (sym e),
        refl,
      ))
      (λ _. (refl, refl))

-- What `receive_steps` comes to, from `r` and the frames that arrive.
abbrev IsInOrder : Cipher → List Bytes → Receiver → Receiver → Type 0
IsInOrder w raws r r' =
    (all_of w r' ≡ all_of w r ++ map (content w r.crypto) raws) × (r'.crypto ≡ r.crypto)

IsKept-IsInOrder :
    (w : Cipher) (raws : List Bytes) (r r' r'' : Receiver)
    → IsKept w r r'
    → IsInOrder w raws r' r''
    → IsInOrder w raws r r''
IsKept-IsInOrder w raws r r' r'' (e, c) (f, d) = (
  f
      ∙ ap (λ l. l ++ map (content w r'.crypto) raws) e
      ∙ ap (λ k. all_of w r ++ map (content w k) raws) c,
  d ∙ c,
)

receive_steps-IsInOrder :
    (w : Cipher) (steps : List ReceiveStep) (r : Receiver)
    → IsInOrder w (arrivals steps) r (receive_steps w steps r)
unfolding receive_steps handle_next
receive_steps-IsInOrder w [] r = (sym (append-nil (all_of w r)), refl)
receive_steps-IsInOrder w (arrives raw ∷ steps) r =
    let r' = record r { waiting = r.waiting ++ (incoming w r.crypto raw ∷ []) } in
    let (e, c) = receive_steps-IsInOrder w steps r' in
    (
      e
          ∙ ap (λ l. l ++ map (content w r.crypto) (arrivals steps))
              {y = all_of w r ++ (content w r.crypto raw ∷ [])}
              (ap (r.handled ++◌) (
                  map-snoc w r.crypto r.waiting (incoming w r.crypto raw)
                  ∙ ap (λ x. map (received w r.crypto) r.waiting ++ (x ∷ []))
                      (received-incoming w r.crypto raw))
                ∙ sym (
                    append_assoc r.handled (map (received w r.crypto) r.waiting)
                      (content w r.crypto raw ∷ [])))
          ∙ append_assoc (all_of w r) (content w r.crypto raw ∷ [])
              (map (content w r.crypto) (arrivals steps)),
      c,
    )
receive_steps-IsInOrder w (decrypt_ends i ∷ steps) r =
    IsKept-IsInOrder w (arrivals steps) r (record r { waiting = end_decrypt i r.waiting })
      (receive_steps w steps (record r { waiting = end_decrypt i r.waiting }))
      (ap (r.handled ++◌) (map-end_decrypt w r.crypto i r.waiting), refl)
      (receive_steps-IsInOrder w steps (record r { waiting = end_decrypt i r.waiting }))
receive_steps-IsInOrder w (handles ∷ steps) r =
    IsKept-IsInOrder w (arrivals steps) r (handle_front w r.waiting r)
      (receive_steps w steps (handle_front w r.waiting r)) (handle_front-IsKept w r.waiting r refl)
      (receive_steps-IsInOrder w steps (handle_front w r.waiting r))

-- Whichever decryptions end first, the frames are handled in the order of their arrival, none is left out and none
-- handled twice: what was handled, and then what the waiting frames hold, is what all the frames that have
-- arrived hold under the keys.
pub receive_steps_lem :
    (w : Cipher) (crypto : Option CryptoState) (steps : List ReceiveStep)
    → let r = receive_steps w steps (record { crypto = crypto; waiting = []; handled = [] }) in
      r.handled ++ map (received w crypto) r.waiting ≡ map (content w crypto) (arrivals steps)
receive_steps_lem w crypto steps =
    let start : Receiver = record { crypto = crypto; waiting = []; handled = [] } in
    let (e, c) = receive_steps-IsInOrder w steps start in
    ap
      (λ k.
        (receive_steps w steps start).handled
        ++ map (received w k) (receive_steps w steps start).waiting)
      (sym c)
    ∙ e
