-- ===== src/Sessions/Examples.antt =====
-- A client with three sessions, the second one in full screen.
use shells.Sessions.Restore.{Disk, connects, restore}
use shells.Sessions.Restored.{restore_lem}
use shells.Sessions.Choice.{IsChosen}
use shells.Sessions.Control.{Control, created, gone, View}
use shells.Sessions.Controlled.{on_controls, on_controls_lem}
use shells.Prelude.{
  ℕ, ◌⊎◌, ◌≡◌, refl, true, false, none, some, List, [], ◌∷◌, arith, nat_eq, In, AllDistinct, codes,
  ◌↔◌,
}
use shells.JsMap
use shells.JsMap.{JsMap}
use shells.Sessions.State.{Sid, Session, Size, App, pause, resume, is_fullscreen}
use shells.Sessions.Active.{set_active, next, slide_cleanup}
use shells.Sessions.Lifecycle.{Listed, ids, destroy, sync, mounted}
use shells.Sessions.Server.{InSync, set_active-InSync}
use shells.Sessions.Navigation.{IsAt, next_times, next_times-IsAt}
use shells.Sessions.Destroy.{IsWellFormed, destroy-IsWellFormed, Destroyed, destroy_lem}
use shells.Sessions.Sync.{In-keys-sync}
use shells.Sessions.Races.{slide_race}

abbrev asleep : Session
asleep = record (mounted none) { is_asleep = true }

abbrev wide : Session
wide = record (mounted none) { fullscreen = true }

abbrev client : App
client = record {
  sessions = (1, asleep) ∷ (2, wide) ∷ (3, asleep) ∷ [];
  active_id = some 2;
  master_id = some 1;
  layout_mode = codes "auto";
  search_sid = none;
  pty_sizes = [];
  is_active_client = (2, true) ∷ [];
  pending_pty_size = [];
  pending_claim_sids = [];
  last_claim_active = (1, 5000) ∷ [];
  saved = record {
    active_id = some 2;
    master_id = some 1;
    layout_mode = codes "auto";
    session_order = 1 ∷ 2 ∷ 3 ∷ [];
  };
  ready = true;
  mobile = true;
  sent = pause 1 ∷ pause 3 ∷ [];
  prompts = 0;
}

abbrev dims : Size
dims = record { cols = 80; rows = 24 }

distinct : AllDistinct (JsMap.keys client.sessions)
distinct = ground arith

settled : (sid : Sid) (s : Session) → JsMap.get client.sessions sid ≡ some s → s.mounting ≡ false
unfolding JsMap.get
settled sid s g = ground arith

agrees : InSync client
unfolding JsMap.get
agrees = record { ready = refl; distinct = distinct; agrees = λ sid s g. ground arith }

IsAt-second : IsAt client (1 ∷ 2 ∷ 3 ∷ []) 1
IsAt-second = record { order = refl; active = refl; within = omega arith }

well_formed : IsWellFormed client
well_formed = record {
  distinct = distinct;
  active = λ id e. ground arith;
  master = λ id e. ground arith;
}

set_active-InSync_example : InSync (set_active client (some 3))
set_active-InSync_example = set_active-InSync client (some 3) agrees

next_times-IsAt_example : IsAt (next_times 5 client) (1 ∷ 2 ∷ 3 ∷ []) 0
next_times-IsAt_example = next_times-IsAt 5 client (1 ∷ 2 ∷ 3 ∷ []) 1 distinct IsAt-second

destroy-IsWellFormed_example : IsWellFormed (destroy client 2)
destroy-IsWellFormed_example = destroy-IsWellFormed client 2 well_formed

destroy_lem_example : Destroyed client (destroy client 2) 2
unfolding JsMap.has
destroy_lem_example = destroy_lem client 2 refl

abbrev listed : List Listed
listed = record { id = 2; title = none } ∷ record { id = 4; title = none } ∷ []

In-keys-sync_example :
    ((sid : Sid)
      → In sid (JsMap.keys (sync client listed 9000 dims).sessions) ↔ In sid (ids listed))
    × AllDistinct (JsMap.keys (sync client listed 9000 dims).sessions)
In-keys-sync_example = In-keys-sync client listed 9000 dims distinct settled

slide_race_example :
    let b = slide_cleanup (set_active (set_active client (some 3)) (some 2)) 2 in
    (b.active_id ≡ some 2)
    × (is_fullscreen (JsMap.get b.sessions 2) ≡ false)
    × ((s : Session) × (JsMap.get b.sessions 3 ≡ some s) × (s.is_asleep ≡ true))
unfolding JsMap.get JsMap.has
slide_race_example = slide_race client 2 3 (omega arith) refl refl refl

-- A run: the next session goes to full screen, and the server hears of the change only.
next_run : (next client).sent ≡ pause 1 ∷ pause 3 ∷ pause 2 ∷ resume 3 ∷ []
unfolding next JsMap.get
next_run = refl

abbrev disk : Disk
disk = record {
  layout = some (codes "focus");
  master = none;
  active = some 7;
  order = some (3 ∷ 2 ∷ 1 ∷ []);
}

abbrev first : Listed
first = record { id = 1; title = none }

abbrev second : Listed
second = record { id = 2; title = none }

abbrev restored : App
restored =
    restore client disk (false ∷ true ∷ []) (first ∷ second ∷ []) (some (first ∷ second ∷ [])) 9000
      dims

-- The saved order has the second session in front, and the client has it behind.
restore_lem_example :
    (JsMap.keys restored.sessions ≡ 1 ∷ 2 ∷ [])
    × IsChosen disk.active disk.order (first ∷ second ∷ []) restored.active_id
unfolding connects
restore_lem_example =
    restore_lem client disk (false ∷ true ∷ []) first (second ∷ []) 9000 dims refl (ground arith)

abbrev view : View
view = record { app = client; effects = [] }

abbrev messages : List (Control × (ℕ × Size))
messages =
    (created 9 none, (9000, dims))
    ∷ ((gone 2, (9001, dims)) ∷ ((created 9 none, (9002, dims)) ∷ []))

on_controls_lem_example :
    (AllDistinct (JsMap.keys client.sessions)
      → AllDistinct (JsMap.keys (on_controls view messages).app.sessions))
    × ((sid : Sid)
        → In sid (JsMap.keys (on_controls view messages).app.sessions)
          ↔ (In sid (JsMap.keys client.sessions) ⊎ In sid (9 ∷ 9 ∷ [])))
on_controls_lem_example = on_controls_lem view messages
