-- ===== src/Layout/Fit.antt =====
-- The stack beside the master tile has room for the other sessions, and no empty row.
use shells.Prelude.{◌≡◌, ◌≤◌, ◌<◌, ◌*◌, ◌-◌, ℕ, some, arith, Bool-cases, inl, inr, leb}
use shells.Layout.{auto, Tracks, ceil_div, auto_cols, update_grid}

-- With five sessions or more in the automatic layout, the rows and columns of the stack hold the
-- sessions other than the master, and one row less would not.
pub update_grid_lem :
    (t : Tracks) (count : ℕ)
    → 5 ≤ count
    → (span : ℕ) × (cols : ℕ) × ((update_grid t count auto).master_span ≡ some span)
      × ((update_grid t count auto).stack_cols ≡ some cols)
      × (count - 1 ≤ span * cols)
      × ((span - 1) * cols < count - 1)
unfolding update_grid ceil_div auto_cols
update_grid_lem t count h = elim (Bool-cases (leb 8 count)) [
  | inl e ↦
      (ceil_div (count - 1) 3, 3, ground arith, ground arith, omega (arith, h), omega (arith, h))
  | inr e ↦
      (ceil_div (count - 1) 2, 2, ground arith, ground arith, omega (arith, h), omega (arith, h))
]
