-- ===== src/Dialogs/Status.antt =====
-- `status` of `public/js/tui-dialog.js`: the boxes of work in progress, each with the closure that ends it.
use shells.Prelude.{
  ℕ, suc, ◌≡◌, refl, Bool, true, false, Option, none, some, List, [], ◌∷◌, ◌==◌, nat_eq, filter,
  not, ◌++◌, arith, if◌then◌else◌,
}

-- A box is known by the number of its call; `boxes` are those on the page, and `active_status` is the one
-- that `_activeStatus` closes.
pub record Statuses : Type 0 where
  pub calls : ℕ
  pub active_status : Option ℕ
  pub boxes : List ℕ

abbrev pub has_box : ℕ → List ℕ → Bool
has_box i [] = false
has_box i (j ∷ js) = if i == j then true else has_box i js

-- `close` of the `i`-th box: its flag `closed` is set where the box is no more on the page. Escape and a
-- click beside the box call it too.
unfoldable pub close_status : ℕ → Statuses → Statuses
close_status i s =
    if has_box i s.boxes
    then record s { active_status = none; boxes = filter (λ j. not (i == j)) s.boxes }
    else s

unfoldable pub close_active : Option ℕ → Statuses → Statuses
unfolding close_status
close_active none s = s
close_active (some i) s = close_status i s

-- The new box; its closure carries the number `s.calls`.
unfoldable pub status_box : Statuses → Statuses
unfolding close_active
status_box s =
    let s' = close_active s.active_status s in
    record s' {
      calls = suc s.calls;
      active_status = some s.calls;
      boxes = s'.boxes ++ (s.calls ∷ []);
    }

pub data StatusCall : Type 0 where
  show_status : StatusCall
  end_status : ℕ → StatusCall

unfoldable pub status_calls : List StatusCall → Statuses → Statuses
unfolding status_box close_status
status_calls [] s = s
status_calls (show_status ∷ cs) s = status_calls cs (status_box s)
status_calls (end_status i ∷ cs) s = status_calls cs (close_status i s)

abbrev pub no_statuses : Statuses
no_statuses = record { calls = 0; active_status = none; boxes = [] }

-- The boxes on the page are the active one, if any.
abbrev pub IsOneBox : Option ℕ → List ℕ → Type 0
IsOneBox none boxes = boxes ≡ []
IsOneBox (some i) boxes = boxes ≡ i ∷ []

close_status-IsOneBox :
    (i : ℕ) (s : Statuses)
    → IsOneBox s.active_status s.boxes
    → let s' = close_status i s in IsOneBox s'.active_status s'.boxes
unfolding close_status
close_status-IsOneBox i s h = ground arith

status_box-IsOneBox :
    (s : Statuses)
    → IsOneBox s.active_status s.boxes
    → let s' = status_box s in IsOneBox s'.active_status s'.boxes
unfolding status_box close_active close_status
status_box-IsOneBox s h = ground arith

status_calls-IsOneBox :
    (cs : List StatusCall) (s : Statuses)
    → IsOneBox s.active_status s.boxes
    → let s' = status_calls cs s in IsOneBox s'.active_status s'.boxes
unfolding status_calls
status_calls-IsOneBox [] s h = h
status_calls-IsOneBox (show_status ∷ cs) s h =
    status_calls-IsOneBox cs (status_box s) (status_box-IsOneBox s h)
status_calls-IsOneBox (end_status i ∷ cs) s h =
    status_calls-IsOneBox cs (close_status i s) (close_status-IsOneBox i s h)

-- However often boxes are shown and closures of boxes are called, in any order and also twice: there is at
-- most one box on the page, and it is the one that the next box closes.
status_calls_lem :
    (cs : List StatusCall) → let s = status_calls cs no_statuses in IsOneBox s.active_status s.boxes
status_calls_lem cs = status_calls-IsOneBox cs no_statuses refl
