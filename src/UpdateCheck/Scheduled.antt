-- ===== src/UpdateCheck/Scheduled.antt =====
-- When the automatic checks are made.
use shells.Prelude.{◌≡◌, ◌≤◌, ◌+◌, ℕ, suc, false, List, [], ◌∷◌, All}
use shells.UpdateCheck.{
  interval, activity_window, Check, at_load, by_schedule, Schedule, Happening, page_load,
}

-- A check by the schedule comes a day after the last one, on a visible page that was used in the last half
-- an hour.
abbrev pub IsDue : Check → Type 0
IsDue (at_load now hidden) = Unit
IsDue (by_schedule r) =
    (r.was_hidden ≡ false) × (r.since_activity ≤ activity_window) × (interval ≤ r.since_check)

-- The newest check is at `last`. A check by the schedule is a day or more after the one before it, whichever
-- kind that is; one at a page load is at any time, and the first of all is one.
abbrev pub AreDaily : ℕ → List Check → Type 0
AreDaily last [] = ⊥
AreDaily last (at_load now hidden ∷ []) = last ≡ now
AreDaily last (at_load now hidden ∷ (c ∷ cs)) =
    (last ≡ now) × ((before : ℕ) × AreDaily before (c ∷ cs))
AreDaily last (by_schedule r ∷ cs) =
    (last ≡ r.at_time) × ((before : ℕ) × (before + interval ≤ r.at_time) × AreDaily before cs)

abbrev pub load_checks : List Check → ℕ
load_checks [] = 0
load_checks (at_load now hidden ∷ cs) = suc (load_checks cs)
load_checks (by_schedule r ∷ cs) = load_checks cs

abbrev pub counted : Happening → ℕ → ℕ
counted (page_load hidden) n = suc n
counted _ n = n

abbrev pub page_loads : List (ℕ × Happening) → ℕ
page_loads [] = 0
page_loads ((now, e) ∷ es) = counted e (page_loads es)

abbrev Timely : ℕ → Schedule → Type 0
Timely n s = AreDaily s.last_run s.checks × All IsDue s.checks × (load_checks s.checks ≡ n)
