-- ===== src/UpdateCheck/Examples.antt =====
-- Two days of use, and an update that is found before a release that cannot be verified.
use shells.Prelude.{◌≡◌, refl, ℕ, true, false, none, some, List, [], ◌∷◌, codes, length}
use shells.UpdateCheck.{
  Happening, input_event, settled, page_load, load_page, schedule_steps, Info, no_data, info_data,
  UpdateEvent, checks_now, answers, Updater,
}
use shells.UpdateCheck.Offered.{no_updates}

abbrev two_days : List (ℕ × Happening)
two_days =
    (1000, input_event)
    ∷ ((11_000, settled)
        ∷ ((86_500_000, input_event)
            ∷ ((86_510_000, settled) ∷ ((86_520_000, page_load true) ∷ []))))

three_checks : length (schedule_steps two_days (load_page 500 false [])).checks ≡ 3
unfolding schedule_steps load_page
three_checks = refl

abbrev release : Info
release = record {
  has_error = false;
  verification_failed = false;
  update_available = true;
  current_version = codes "1.0.0";
  latest = codes "1.1.0";
}

abbrev tampered : Info
tampered = record release { has_error = true; verification_failed = true }

abbrev checks : List UpdateEvent
checks =
    checks_now false 5 (info_data release)
    ∷ (answers true 2 false none
        ∷ (checks_now true 900_000 no_data ∷ (answers true 2 true none ∷ [])))

abbrev dismissed : Updater
dismissed = record (no_updates false 0) { pending_update = some release }
