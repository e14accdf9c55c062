-- ===== src/Touch.antt =====
-- The gestures of `public/js/mobile.js`. Coordinates are whole pixels; the mean of two fingers is kept
-- doubled, so that no half is lost, and the bounds on it are doubled with it.
pub mod Gesture
pub mod Lift
pub mod Rotation
mod Examples
use shells.Prelude.{
  ℕ, Bool, true, false, ◌&&◌, ◌||◌, not, ◌+◌, ◌-◌, ◌*◌, List, [], ◌∷◌, if◌then◌else◌, ltb, eqb, Str,
}

pub record Point : Type 0 where
  pub x : ℕ
  pub y : ℕ

-- The variables of the tracker: where one finger started, and twice the mean of two.
pub record Tracker : Type 0 where
  pub start : Point
  pub start2 : Point
  pub multi_touch : Bool
  pub two_finger_fired : Bool

-- An event of the document. `excluded` is `inExcludedTarget` of its target, and `selecting` says that
-- a selection is on; `left` are the fingers that are still down.
pub data TouchEvent : Type 0 where
  touch_start : List Point → TouchEvent
  touch_move : List Point → Bool → TouchEvent
  touch_end : List Point → ℕ → Bool → Bool → TouchEvent
  touch_cancel : TouchEvent

pub data Action : Type 0 where
  send_key : Str → Action
  go_previous : Action
  go_next : Action

abbrev pub tab : Str
tab = 9 ∷ []

abbrev pub escape : Str
escape = 27 ∷ []

-- `Math.abs(a - b)`
unfoldable pub dist : ℕ → ℕ → ℕ
dist a b = (a - b) + (b - a)

abbrev pub sum_of : Point → Point → Point
sum_of p q = record { x = p.x + q.x; y = p.y + q.y }

abbrev pub doubled : Point → Point
doubled p = record { x = 2 * p.x; y = 2 * p.y }

-- A lateral swipe of two fingers: more than 60 pixels across and less than 80 along.
unfoldable pub is_swipe2 : Point → Point → Bool
unfolding dist
is_swipe2 from to = ltb 120 (dist to.x from.x) && ltb (dist to.y from.y) 160

-- The key of a lateral swipe: to the right the tabulator, to the left escape.
unfoldable pub swipe_key : Point → Point → Action
swipe_key from to = send_key (if ltb from.x to.x then tab else escape)

-- `doSwipe2`, up to twice the end of the swipe.
unfoldable pub do_swipe2 : Tracker → Point → Tracker × List Action
unfolding is_swipe2 swipe_key
do_swipe2 t to =
    if not t.two_finger_fired && is_swipe2 t.start2 to
    then (record t { two_finger_fired = true }, swipe_key t.start2 to ∷ [])
    else (t, [])

abbrev pub released : Tracker → Tracker
released t = record t { multi_touch = false; two_finger_fired = false }

-- A swipe of one finger: more than 100 pixels across and less than 50 along.
unfoldable pub swipe1 : Tracker → Point → List Action
unfolding dist
swipe1 t to =
    if ltb 100 (dist to.x t.start.x) && ltb (dist to.y t.start.y) 50
    then (if ltb t.start.x to.x then go_previous else go_next) ∷ []
    else []

unfoldable pub on_touch_start : Tracker → List Point → Tracker
on_touch_start t (p ∷ []) = record t { start = p }
on_touch_start t (p ∷ (q ∷ [])) = record t {
  multi_touch = true;
  two_finger_fired = false;
  start2 = sum_of p q;
}
on_touch_start t _ = t

unfoldable pub on_touch_move : Tracker → List Point → Bool → Tracker × List Action
unfolding do_swipe2
on_touch_move t (p ∷ (q ∷ [])) excluded =
    if not t.multi_touch || excluded then (t, []) else do_swipe2 t (sum_of p q)
on_touch_move t _ excluded = (t, [])

-- The end of the gesture, after the tests of the target.
unfoldable pub finish : Tracker → List Point → ℕ → Tracker × List Action
unfolding do_swipe2 swipe1
finish t (p ∷ (q ∷ [])) left =
    if t.multi_touch then (released t, (do_swipe2 t (sum_of p q)).1) else (released t, [])
finish t (p ∷ []) left =
    if ltb 0 left
    then (t, [])
    else if t.multi_touch
    then (released t, (do_swipe2 t (doubled p)).1)
    else (t, swipe1 t p)
finish t _ left = (t, [])

unfoldable pub on_touch_end : Tracker → List Point → ℕ → Bool → Bool → Tracker × List Action
unfolding finish
on_touch_end t changed left selecting excluded =
    if selecting || excluded then (t, []) else finish t changed left

unfoldable pub step : Tracker → TouchEvent → Tracker × List Action
unfolding on_touch_start on_touch_move on_touch_end
step t (touch_start touches) = (on_touch_start t touches, [])
step t (touch_move touches excluded) = on_touch_move t touches excluded
step t (touch_end changed left selecting excluded) = on_touch_end t changed left selecting excluded
step t touch_cancel = (released t, [])
