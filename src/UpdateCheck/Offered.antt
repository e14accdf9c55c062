-- ===== src/UpdateCheck/Offered.antt =====
-- What is offered to the user, and what is sent to the server.
use shells.Prelude.{
  ◌≡◌, ℕ, suc, Bool, true, false, ◌&&◌, ◌||◌, not, none, some, List, [], ◌∷◌, ◌++◌, ltb,
  if◌then◌else◌, append_assoc, ◌∙◌,
}
use shells.UpdateCheck.{
  Info, CheckAnswer, info_data, offer, alarm, modal_opened, check_request, Updater, show_modal,
  on_info, on_check_answer, ask_server, check_for_updates, manual_check, answer_open, answer_modal,
  UpdateEvent, checks_now, answers, update_events,
}
use shells.UpdateCheck.Good.{Good}

-- The answers that agree to the update, also to the second question where there is one.
abbrev pub agreed : List UpdateEvent → ℕ
agreed [] = 0
agreed (checks_now manual now answer ∷ es) = agreed es
agreed (answers ok n second a ∷ es) =
    if ok && (second || not (ltb 0 n)) then suc (agreed es) else agreed es

-- Before the first check.
abbrev pub no_updates : Bool → ℕ → Updater
no_updates opted_out stored_last = record {
  opted_out = opted_out;
  stored_last = stored_last;
  pending_update = none;
  modal = none;
  notices = [];
}

-- After the alarm a check by hand offers the update that was found before it, without asking the server again.
pub update_events-after_alarm :
    (u : Updater) (known bad : Info) (day now : ℕ) (answer : CheckAnswer)
    → u.opted_out ≡ false
    → u.pending_update ≡ some known
    → u.modal ≡ none
    → bad.has_error ≡ true
    → bad.verification_failed ≡ true
    → (update_events
        (checks_now false day (info_data bad)
          ∷ (answers true 0 false none ∷ (checks_now true now answer ∷ [])))
        u).notices
      ≡ u.notices
        ++ (check_request false ∷ (modal_opened alarm ∷ (modal_opened (offer known) ∷ [])))
unfolding update_events check_for_updates manual_check ask_server on_check_answer on_info show_modal
    answer_modal answer_open
update_events-after_alarm u known bad day now answer o k m e v =
    rw (o, e, v, m, k)
      (append_assoc (u.notices ++ (check_request false ∷ [])) (modal_opened alarm ∷ [])
          (modal_opened (offer known) ∷ [])
        ∙ append_assoc u.notices (check_request false ∷ [])
            (modal_opened alarm ∷ (modal_opened (offer known) ∷ [])))
