-- ===== src/UpdateCheck.antt =====
-- The check for a new release in public/js/shell/update.js: its schedule, the offer of an update, the alarm, and
-- the update itself. Times are milliseconds of `Date.now()`.
use shells.Prelude.{
  ℕ, suc, ◌+◌, ◌-◌, ◌*◌, Bool, true, false, not, ◌&&◌, ◌||◌, Option, none, some, List, [], ◌∷◌,
  ◌++◌, Str, ltb, leb, if◌then◌else◌,
}
pub mod Scheduled
pub mod Good
pub mod Offered
mod Examples

abbrev pub interval : ℕ
interval = 24 * 60 * 60 * 1000

abbrev pub activity_window : ℕ
activity_window = 30 * 60 * 1000

-- A check by the schedule, with what is looked at when it begins.
pub record ScheduledRun : Type 0 where
  pub at_time : ℕ
  pub since_activity : ℕ
  pub since_check : ℕ
  pub was_hidden : Bool

-- An automatic check: by `restore` when a page is loaded, at a time and on a page that is hidden or not, or
-- by the schedule.
pub data Check : Type 0 where
  at_load : ℕ → Bool → Check
  by_schedule : ScheduledRun → Check

-- The closure of `_scheduleUpdateCheck` with the fields that it uses; `checks` are the automatic checks, the
-- newest first, and `settle` says whether its timer is set. The checks of the pages before are kept.
pub record Schedule : Type 0 where
  pub hidden : Bool
  pub last_run : ℕ
  pub last_activity : ℕ
  pub settle_timer : Bool
  pub checks : List Check

-- `_scheduleUpdateCheck`, the first time.
unfoldable pub schedule : ℕ → Bool → List Check → Schedule
schedule now hidden checks = record {
  hidden = hidden;
  last_run = now;
  last_activity = now;
  settle_timer = false;
  checks = checks;
}

-- The end of `restore`, which a page runs once: a check, and then the schedule.
unfoldable pub load_page : ℕ → Bool → List Check → Schedule
unfolding schedule
load_page now hidden checks = schedule now hidden (at_load now hidden ∷ checks)

unfoldable pub try_run : ℕ → Schedule → Schedule
try_run now s =
    if s.hidden
    then s
    else if ltb activity_window (now - s.last_activity)
    then s
    else if ltb (now - s.last_run) interval
    then s
    else record s {
      last_run = now;
      checks =
          by_schedule (record {
            at_time = now;
            since_activity = now - s.last_activity;
            since_check = now - s.last_run;
            was_hidden = s.hidden;
          })
          ∷ s.checks;
    }

unfoldable pub bump : ℕ → Schedule → Schedule
bump now s = record s { last_activity = now; settle_timer = true }

pub data Happening : Type 0 where
  input_event : Happening
  settled : Happening
  visibility : Bool → Happening
  day_over : Happening
  page_load : Bool → Happening

unfoldable pub schedule_step : ℕ → Happening → Schedule → Schedule
unfolding try_run bump load_page
schedule_step now input_event s = bump now s
schedule_step now settled s =
    if s.settle_timer then try_run now (record s { settle_timer = false }) else s
schedule_step now (visibility hidden) s =
    if hidden then record s { hidden = true } else try_run now (record s { hidden = false })
schedule_step now day_over s = try_run now s
schedule_step now (page_load hidden) s = load_page now hidden s.checks

unfoldable pub schedule_steps : List (ℕ × Happening) → Schedule → Schedule
unfolding schedule_step
schedule_steps [] s = s
schedule_steps ((now, h) ∷ hs) s = schedule_steps hs (schedule_step now h s)

-- What `/api/update-check` answers.
pub record Info : Type 0 where
  pub has_error : Bool
  pub verification_failed : Bool
  pub update_available : Bool
  pub current_version : Str
  pub latest : Str

-- The request of `_checkForUpdates`: an error, no data, or data.
pub data CheckAnswer : Type 0 where
  failed : CheckAnswer
  no_data : CheckAnswer
  info_data : Info → CheckAnswer

-- The dialog that `_updateModalShown` stands for.
pub data UpdateModal : Type 0 where
  offer : Info → UpdateModal
  alarm : UpdateModal

-- What the user sees and what is sent, in order.
pub data UpdateNotice : Type 0 where
  modal_opened : UpdateModal → UpdateNotice
  checked_recently : UpdateNotice
  check_failed : UpdateNotice
  up_to_date : UpdateNotice
  check_request : Bool → UpdateNotice
  second_confirm : ℕ → UpdateNotice
  updating_status : UpdateNotice
  status_closed : UpdateNotice
  update_request : UpdateNotice
  restarting : Str → UpdateNotice
  update_failed : Option Str → UpdateNotice

-- `opted_out` and `stored_last`, `shells-update-last` as a number, stand in the browser's storage.
pub record Updater : Type 0 where
  pub opted_out : Bool
  pub stored_last : ℕ
  pub pending_update : Option Info
  pub modal : Option UpdateModal
  pub notices : List UpdateNotice

abbrev pub note : UpdateNotice → Updater → Updater
note n u = record u { notices = u.notices ++ (n ∷ []) }

-- `_showUpdateModal` and `_showVerificationAlarm`: nothing happens while a dialog of the two is open.
unfoldable pub show_modal : UpdateModal → Updater → Updater
show_modal m u = elim u.modal [
  | some other ↦ u
  | none ↦ record u { modal = some m; notices = u.notices ++ (modal_opened m ∷ []) }
]

-- The end of `_checkForUpdates`, with the answer of the server.
unfoldable pub on_info : Bool → Info → Updater → Updater
unfolding show_modal
on_info manual info u =
    if info.has_error
    then (if info.verification_failed
        then show_modal alarm u
        else if manual
        then note check_failed u
        else u)
    else if info.update_available
    then show_modal (offer info) (record u { pending_update = some info })
    else if manual
    then note up_to_date (record u { pending_update = none })
    else u

unfoldable pub on_check_answer : Bool → CheckAnswer → Updater → Updater
unfolding on_info
on_check_answer manual (info_data info) u = on_info manual info u
on_check_answer manual failed u = if manual then note check_failed u else u
on_check_answer manual no_data u = if manual then note check_failed u else u

unfoldable pub ask_server : Bool → CheckAnswer → Updater → Updater
unfolding on_check_answer
ask_server manual answer u = on_check_answer manual answer (note (check_request manual) u)

-- A check by hand: an update that is known is offered again, else the server is asked at most every two minutes.
unfoldable pub manual_check : Option Info → ℕ → CheckAnswer → Updater → Updater
unfolding show_modal ask_server
manual_check (some info) now answer u = show_modal (offer info) u
manual_check none now answer u =
    if ltb (now - u.stored_last) 120_000
    then note checked_recently u
    else ask_server true answer (record u { stored_last = now })

-- `_checkForUpdates` at a time, with the answer that the request will get.
unfoldable pub check_for_updates : Bool → ℕ → CheckAnswer → Updater → Updater
unfolding manual_check ask_server
check_for_updates false now answer u = if u.opted_out then u else ask_server false answer u
check_for_updates true now answer u = manual_check u.pending_update now answer u

-- What `/api/update` answers.
pub record Applied : Type 0 where
  pub is_ok : Bool
  pub applied : Bool
  pub verification_failed : Bool
  pub error_text : Option Str

-- After the request of `_applyUpdate`; none for one that throws.
unfoldable pub on_applied : Info → Option Applied → Updater → Updater
unfolding show_modal
on_applied info none u = note (update_failed none) u
on_applied info (some a) u =
    if a.is_ok && a.applied
    then note (restarting info.latest) u
    else if a.verification_failed
    then show_modal alarm u
    else note (update_failed a.error_text) u

unfoldable pub request_update : Info → Option Applied → Updater → Updater
unfolding on_applied
request_update info a u =
    on_applied info a (note status_closed (note update_request (note updating_status u)))

-- `_applyUpdate` with `n` sessions, and the answer to the second question, which is asked where there are any.
unfoldable pub apply_release : Info → ℕ → Bool → Option Applied → Updater → Updater
unfolding request_update
apply_release info n ok a u =
    if ltb 0 n
    then (if ok
        then request_update info a (note (second_confirm n) u)
        else note (second_confirm n) u)
    else request_update info a u

unfoldable pub answer_open :
    Option UpdateModal → Bool → ℕ → Bool → Option Applied → Updater → Updater
unfolding apply_release
answer_open none ok n second a u = u
answer_open (some alarm) ok n second a u = record u { modal = none }
answer_open (some (offer info)) ok n second a u =
    if ok
    then apply_release info n second a (record u { modal = none })
    else record u { modal = none }

-- The user answers the open dialog; an offer that is taken goes on to the update.
unfoldable pub answer_modal : Bool → ℕ → Bool → Option Applied → Updater → Updater
unfolding answer_open
answer_modal ok n second a u = answer_open u.modal ok n second a u

pub data UpdateEvent : Type 0 where
  checks_now : Bool → ℕ → CheckAnswer → UpdateEvent
  answers : Bool → ℕ → Bool → Option Applied → UpdateEvent

unfoldable pub update_events : List UpdateEvent → Updater → Updater
unfolding check_for_updates answer_modal
update_events [] u = u
update_events (checks_now manual now answer ∷ es) u =
    update_events es (check_for_updates manual now answer u)
update_events (answers ok n second a ∷ es) u = update_events es (answer_modal ok n second a u)
