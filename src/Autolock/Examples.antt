-- ===== src/Autolock/Examples.antt =====
-- A page with an autolock of one minute.
use shells.Prelude.{◌≡◌, refl, true, false, none, [], codes, arith}
use shells.Sessions.State.{App}
use shells.Backends.Text.{pos}
use shells.Autolock.{Watch}
use shells.Autolock.Idle.{watch_steps, looks, looks_lem}

abbrev watch : Watch
watch = record { last_activity = 5000; minutes = pos 1; locked = false }

looks_lem_example : (watch_steps watch (looks 6000 2)).locked ≡ true
looks_lem_example = looks_lem watch 0 1 6000 refl (omega arith) (omega arith)

abbrev offline : App
offline = record {
  sessions = [];
  active_id = none;
  master_id = none;
  layout_mode = codes "auto";
  search_sid = none;
  pty_sizes = [];
  is_active_client = [];
  pending_pty_size = [];
  pending_claim_sids = [];
  last_claim_active = [];
  saved = record {
    active_id = none;
    master_id = none;
    layout_mode = codes "auto";
    session_order = [];
  };
  ready = false;
  mobile = false;
  sent = [];
  prompts = 0;
}
