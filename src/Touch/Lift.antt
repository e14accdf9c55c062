-- ===== src/Touch/Lift.antt =====
-- A touch that the tracker takes for a swipe.
use shells.Prelude.{◌≡◌, ◌<◌, ◌+◌, false, [], ◌∷◌, arith}
use shells.Touch.{
  Point, Tracker, touch_start, touch_end, send_key, tab, dist, is_swipe2, swipe_key, do_swipe2,
  finish, on_touch_end, on_touch_start, step,
}
use shells.Touch.Gesture.{run}

-- Two fingers more than 120 pixels apart across and less than 160 along, that are put down and lifted
-- one after the other, without any move, outside of the excluded targets and without a selection on,
-- send the tabulator where the one on the right is lifted last: its place is compared with the mean.
pub staggered_tap :
    (t : Tracker) (p q : Point)
    → p.x + 120 < q.x
    → p.y < q.y + 160
    → q.y < p.y + 160
    → (run t (
        touch_start (p ∷ (q ∷ []))
        ∷ (touch_end (p ∷ []) 1 false false ∷ (touch_end (q ∷ []) 0 false false ∷ [])))).1
      ≡ send_key tab ∷ []
unfolding run step on_touch_start on_touch_end finish do_swipe2 is_swipe2 swipe_key dist
staggered_tap t p q h k l = ground arith
