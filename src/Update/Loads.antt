-- ===== src/Update/Loads.antt =====
-- The reloads after an update do not go on for ever.
use shells.Prelude.{
  ℕ, ◌+◌, ◌≤◌, Bool, Option, none, some, List, [], ◌∷◌, Str, str_eq, if◌then◌else◌, arith,
}
use shells.Update.{
  Stash, Loaded, nothing, force_reload, updated, incomplete, check_version, toast_updated,
}

abbrev pub is_reload : Loaded → ℕ
is_reload force_reload = 1
is_reload nothing = 0
is_reload (updated v) = 0
is_reload (incomplete v) = 0

-- How many of a sequence of pages, of the given versions, force a reload.
unfoldable pub reloads : Stash → List Str → ℕ
unfolding toast_updated
reloads s [] = 0
reloads s (v ∷ vs) = is_reload (toast_updated s v).1 + reloads (toast_updated s v).0 vs

-- How many reloads are left.
abbrev left : Stash → ℕ
left s = elim s.updated_to [ none ↦ 0 | some new ↦ if s.retry then 0 else 1 ]

toast_updated-left :
    (s : Stash) (v : Str) → is_reload (toast_updated s v).1 + left (toast_updated s v).0 ≤ left s
unfolding toast_updated check_version
toast_updated-left s v = at_most s.updated_to s.retry
  where
    at_most :
        (o : Option Str) (retry : Bool)
        → is_reload (toast_updated (record { updated_to = o; retry = retry }) v).1
            + left (toast_updated (record { updated_to = o; retry = retry }) v).0
          ≤ left (record { updated_to = o; retry = retry })
    at_most none retry = ground arith
    at_most (some new) retry = ground arith

reloads-left : (s : Stash) (vs : List Str) → reloads s vs ≤ left s
unfolding reloads
reloads-left s [] = ground arith
reloads-left s (v ∷ vs) =
    omega (arith, toast_updated-left s v, reloads-left (toast_updated s v).0 vs)

-- Whatever versions the pages have that are loaded one after the other, with whatever the storage keeps
-- at first, at most one of them forces a reload.
pub reloads_lem : (s : Stash) (vs : List Str) → reloads s vs ≤ 1
reloads_lem s vs = omega (arith, reloads-left s vs, left_le s)
  where
    left_le : (t : Stash) → left t ≤ 1
    left_le t = ground arith
