-- ===== src/Stream/Sent.antt =====
-- The order of what the send queue puts on the wire.
use shells.Prelude.{
  ◌≡◌, refl, sym, ap, ◌∙◌, subst, ◌⊎◌, inl, inr, Bool, true, false, Option, none, some, List, [],
  ◌∷◌, ◌++◌, append-nil, append_assoc, Bool-cases, if-cases, if◌then◌else◌,
}
use shells.Connection.Hex.{Bytes}
use shells.Connection.Crypto.{CryptoState}
use shells.Stream.{Cipher, WsMsg, frame}
use shells.Stream.Sending.{
  Sender, will_send, send_ws, begin_job, frame_or_none, end_job, SendStep, call, job_begins,
  job_ends, socket_closes, socket_opens, keys_agreed, login, send_step, send_steps, accepted_msgs,
}

-- The frame of a message under some keys and nonce.
abbrev pub IsFrameOf : Cipher → Bytes → WsMsg → Type 0
IsFrameOf w bytes msg =
    (state : Option CryptoState) × (nonce : Bytes) × (frame w state nonce msg ≡ some bytes)

-- The frames are those of some of the messages, in their order, each of one message.
abbrev pub AreFramesOf : Cipher → List Bytes → List WsMsg → Type 0
AreFramesOf w [] msgs = Unit
AreFramesOf w (f ∷ fs) [] = ⊥
AreFramesOf w (f ∷ fs) (m ∷ msgs) =
    (IsFrameOf w f m × AreFramesOf w fs msgs) ⊎ AreFramesOf w (f ∷ fs) msgs

module _ (w : Cipher) where
  AreFramesOf-append :
      (fs : List Bytes) (msgs more : List WsMsg)
      → AreFramesOf w fs msgs
      → AreFramesOf w fs (msgs ++ more)
  AreFramesOf-append [] msgs more h = tt
  AreFramesOf-append (f ∷ fs) [] more h = absurd h
  AreFramesOf-append (f ∷ fs) (m ∷ msgs) more (inl (p, h)) =
      inl (p, AreFramesOf-append fs msgs more h)
  AreFramesOf-append (f ∷ fs) (m ∷ msgs) more (inr h) =
      inr (AreFramesOf-append (f ∷ fs) msgs more h)

  AreFramesOf-snoc :
      (fs : List Bytes) (msgs : List WsMsg) (f : Bytes) (m : WsMsg)
      → AreFramesOf w fs msgs
      → IsFrameOf w f m
      → AreFramesOf w (fs ++ (f ∷ [])) (msgs ++ (m ∷ []))
  AreFramesOf-snoc [] [] f m h p = inl (p, tt)
  AreFramesOf-snoc [] (n ∷ msgs) f m h p = inr (AreFramesOf-snoc [] msgs f m tt p)
  AreFramesOf-snoc (g ∷ fs) [] f m h p = absurd h
  AreFramesOf-snoc (g ∷ fs) (n ∷ msgs) f m (inl (q, h)) p =
      inl (q, AreFramesOf-snoc fs msgs f m h p)
  AreFramesOf-snoc (g ∷ fs) (n ∷ msgs) f m (inr h) p = inr (AreFramesOf-snoc (g ∷ fs) msgs f m h p)

  abbrev pub flying_msgs : Option (WsMsg × Option Bytes) → List WsMsg
  flying_msgs none = []
  flying_msgs (some (msg, _)) = msg ∷ []

  abbrev IsFlying : Option (WsMsg × Option Bytes) → Type 0
  IsFlying none = Unit
  IsFlying (some (msg, none)) = Unit
  IsFlying (some (msg, some bytes)) = IsFrameOf w bytes msg

  -- The messages that were accepted are those whose job has ended, the one that is flying and the queue.
  abbrev Ordered : List WsMsg → Sender → Type 0
  Ordered accepted s =
      (ended : List WsMsg) × (accepted ≡ ended ++ (flying_msgs s.flying ++ s.queue))
      × AreFramesOf w s.sent ended
      × IsFlying s.flying

  send_ws-Ordered :
      (accepted : List WsMsg) (msg : WsMsg) (s : Sender)
      → Ordered accepted s
      → Ordered (if will_send s then accepted ++ (msg ∷ []) else accepted) (send_ws msg s)
  unfolding send_ws
  send_ws-Ordered accepted msg s (ended, e, h, f) = elim (Bool-cases (will_send s)) [
    | inr r ↦ rw (send_ws, r) (ended, e, h, f)
    | inl r ↦
        rw (send_ws, r)
          (
            ended,
            ap (λ l. l ++ (msg ∷ [])) e
                ∙ append_assoc ended (flying_msgs s.flying ++ s.queue) (msg ∷ [])
                ∙ ap (λ l. ended ++ l) (append_assoc (flying_msgs s.flying) s.queue (msg ∷ [])),
            h,
            f,
          )
  ]

  frame-IsFlying :
      (crypto : Option CryptoState) (nonce : Bytes) (m : WsMsg) (o : Option Bytes)
      → frame w crypto nonce m ≡ o
      → IsFlying (some (m, o))
  frame-IsFlying crypto nonce m none e = tt
  frame-IsFlying crypto nonce m (some bytes) e = (crypto, nonce, e)

  pub begin_job-first :
      (nonce : Bytes) (s : Sender) (m : WsMsg) (q : List WsMsg)
      → s.flying ≡ none
      → s.queue ≡ m ∷ q
      → begin_job w nonce s ≡ record s { queue = q; flying = some (m, frame w s.crypto nonce m) }
  unfolding begin_job
  begin_job-first nonce s m q a b = rw (a, b) refl

  begin_job-idle : (nonce : Bytes) (s : Sender) → s.queue ≡ [] → begin_job w nonce s ≡ s
  unfolding begin_job
  begin_job-idle nonce s b = by_flying s.flying refl
    where
      by_flying : (fl : Option (WsMsg × Option Bytes)) → s.flying ≡ fl → begin_job w nonce s ≡ s
      by_flying none a = simp (begin_job, a, b) refl
      by_flying (some job) a = simp (begin_job, a) refl

  begin_job-busy :
      (nonce : Bytes) (s : Sender) (job : WsMsg × Option Bytes)
      → s.flying ≡ some job
      → begin_job w nonce s ≡ s
  unfolding begin_job
  begin_job-busy nonce s job a = rw a refl

  begin_job-Ordered :
      (accepted : List WsMsg) (nonce : Bytes) (s : Sender)
      → Ordered accepted s
      → Ordered accepted (begin_job w nonce s)
  begin_job-Ordered accepted nonce s h = by_flying s.flying s.queue refl refl
    where
      by_flying :
          (fl : Option (WsMsg × Option Bytes)) (q : List WsMsg)
          → s.flying ≡ fl
          → s.queue ≡ q
          → Ordered accepted (begin_job w nonce s)
      by_flying (some job) q a b = subst (Ordered accepted) (sym (begin_job-busy nonce s job a)) h
      by_flying none [] a b = subst (Ordered accepted) (sym (begin_job-idle nonce s b)) h
      by_flying none (m ∷ q) a b =
          let (ended, e, g, f) = h in
          subst (Ordered accepted) (sym (begin_job-first nonce s m q a b)) (
            ended,
            e ∙ ap (λ fl. ended ++ (flying_msgs fl ++ s.queue)) a ∙ ap (λ l. ended ++ l) b,
            g,
            frame-IsFlying s.crypto nonce m (frame w s.crypto nonce m) refl,
          )

  end_frames :
      (sent : List Bytes) (ended : List WsMsg) (fl : Option (WsMsg × Option Bytes))
      → AreFramesOf w sent ended
      → IsFlying fl
      → AreFramesOf w (sent ++ frame_or_none fl) (ended ++ flying_msgs fl)
  end_frames sent ended none h f =
      subst (λ l. AreFramesOf w l (ended ++ [])) (sym (append-nil sent))
        (AreFramesOf-append sent ended [] h)
  end_frames sent ended (some (m, none)) h f =
      subst (λ l. AreFramesOf w l (ended ++ (m ∷ []))) (sym (append-nil sent))
        (AreFramesOf-append sent ended (m ∷ []) h)
  end_frames sent ended (some (m, some bytes)) h f = AreFramesOf-snoc sent ended bytes m h f

  end_job-Ordered :
      (accepted : List WsMsg) (s : Sender) → Ordered accepted s → Ordered accepted (end_job s)
  unfolding end_job
  end_job-Ordered accepted s (ended, e, h, f) = (
    ended ++ flying_msgs s.flying,
    e ∙ sym (append_assoc ended (flying_msgs s.flying) s.queue),
    if-cases (λ l. AreFramesOf w l (ended ++ flying_msgs s.flying)) s.is_open
        (s.sent ++ frame_or_none s.flying) s.sent (λ _. end_frames s.sent ended s.flying h f)
        (λ _. AreFramesOf-append s.sent ended (flying_msgs s.flying) h),
    tt,
  )

  send_steps-Ordered :
      (steps : List SendStep) (accepted : List WsMsg) (s : Sender)
      → Ordered accepted s
      → Ordered (accepted ++ accepted_msgs w steps s) (send_steps w steps s)
  unfolding send_steps send_step accepted_msgs
  send_steps-Ordered [] accepted s h = subst (λ l. Ordered l s) (sym (append-nil accepted)) h
  send_steps-Ordered (call msg ∷ steps) accepted s h =
      subst (λ l. Ordered l (send_steps w steps (send_ws msg s))) (took (will_send s))
        (send_steps-Ordered steps (if will_send s then accepted ++ (msg ∷ []) else accepted)
          (send_ws msg s) (send_ws-Ordered accepted msg s h))
    where
      took :
          (b : Bool)
          → (if b then accepted ++ (msg ∷ []) else accepted)
              ++ accepted_msgs w steps (send_ws msg s)
            ≡ accepted
              ++ (if b
                  then msg ∷ accepted_msgs w steps (send_ws msg s)
                  else accepted_msgs w steps (send_ws msg s))
      took true = append_assoc accepted (msg ∷ []) (accepted_msgs w steps (send_ws msg s))
      took false = refl
  send_steps-Ordered (job_begins nonce ∷ steps) accepted s h =
      send_steps-Ordered steps accepted (begin_job w nonce s) (begin_job-Ordered accepted nonce s h)
  send_steps-Ordered (job_ends ∷ steps) accepted s h =
      send_steps-Ordered steps accepted (end_job s) (end_job-Ordered accepted s h)
  send_steps-Ordered (socket_closes ∷ steps) accepted s h =
      send_steps-Ordered steps accepted
        (record s { is_open = false; ws_ready = false; crypto = none }) h
  send_steps-Ordered (socket_opens crypto ∷ steps) accepted s h =
      send_steps-Ordered steps accepted (record s { is_open = true; crypto = crypto }) h
  send_steps-Ordered (keys_agreed state ∷ steps) accepted s h =
      send_steps-Ordered steps accepted (record s { crypto = some state }) h
  send_steps-Ordered (login ∷ steps) accepted s h =
      send_steps-Ordered steps accepted (record s { ws_ready = true }) h

-- A sender to which nothing has been given yet.
abbrev pub IsIdle : Sender → Type 0
IsIdle s = (s.queue ≡ []) × (s.flying ≡ none) × (s.sent ≡ [])

-- Over every sequence of calls, jobs, closed sockets, new sockets and logins, from a sender that has done
-- nothing yet: the messages that `sendWs` has accepted are, in the order of the calls, those whose job has
-- ended, the one whose job is going on and those in the queue; and the frames on the wire are those of
-- messages whose job has ended, in the same order and at most one for each.
pub send_steps_lem :
    (w : Cipher) (steps : List SendStep) (s : Sender)
    → IsIdle s
    → (ended : List WsMsg) × (accepted_msgs w steps s
        ≡ ended ++ (flying_msgs w (send_steps w steps s).flying ++ (send_steps w steps s).queue))
      × AreFramesOf w (send_steps w steps s).sent ended
send_steps_lem w steps s (q, f, e) =
    let (ended, a, h, _) = send_steps-Ordered w steps [] s (
      [],
      sym (ap (λ fl. flying_msgs w fl ++ s.queue) f ∙ q),
      subst (λ l. AreFramesOf w l []) (sym e) tt,
      subst (IsFlying w) (sym f) tt,
    ) in
    (ended, a, h)
