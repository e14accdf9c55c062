-- ===== src/Layout/Examples.antt =====
-- A concrete grid.
use shells.Prelude.{◌≡◌, ◌≤◌, ◌<◌, ◌*◌, ◌-◌, refl, ℕ, some, arith}
use shells.Layout.{auto, no_tracks, update_grid}
use shells.Layout.Fit.{update_grid_lem}

-- Nine sessions: three columns of three rows hold the eight that are not the master.
nine : (update_grid no_tracks 9 auto).master_span ≡ some 3
unfolding update_grid
nine = refl

update_grid_lem_example :
    (span : ℕ) × (cols : ℕ) × ((update_grid no_tracks 9 auto).master_span ≡ some span)
    × ((update_grid no_tracks 9 auto).stack_cols ≡ some cols)
    × (9 - 1 ≤ span * cols)
    × ((span - 1) * cols < 9 - 1)
update_grid_lem_example = update_grid_lem no_tracks 9 (omega arith)
