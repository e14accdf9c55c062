-- ===== src/Update/Examples.antt =====
-- A page of an old version, and a server that is slow to start.
use shells.Prelude.{◌≡◌, ◌≤◌, false, Option, none, some, List, [], ◌∷◌, codes, replicate}
use shells.Update.{Stash, update_ready, answer, controller_change, Event, Health, fresh}
use shells.Update.Loads.{reloads, reloads_lem}
use shells.Update.Worker.{run, reloads-run, any_consents}

abbrev stash : Stash
stash = record { updated_to = some (codes "v2.0.0"); retry = false }

-- The page stays at the old version.
reloads_lem_example : reloads stash (codes "1.0.0" ∷ (codes "1.0.0" ∷ (codes "1.0.0" ∷ []))) ≤ 1
reloads_lem_example = reloads_lem stash (codes "1.0.0" ∷ (codes "1.0.0" ∷ (codes "1.0.0" ∷ [])))

-- A dialog that is declined, and another worker that takes over.
abbrev declined : List Event
declined = update_ready false ∷ (answer false ∷ (controller_change ∷ []))

reloads-run_example :
    ((run fresh declined).reloads ≤ 1)
    × (any_consents declined ≡ false → (run fresh declined).reloads ≡ 0)
reloads-run_example = reloads-run declined

abbrev old : Health
old = record { version = codes "1.0.0"; update_refused = false }

abbrev new : Health
new = record { version = codes "v2.0.0"; update_refused = false }

abbrev answers : List (Option Health)
answers = none ∷ (some old ∷ (some new ∷ replicate 47 none))
