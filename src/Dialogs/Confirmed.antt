-- ===== src/Dialogs/Confirmed.antt =====
-- How a `confirm` ends.
use shells.Prelude.{◌≡◌, refl, ◌⊎◌, inl, true, false, none, some, List, [], ◌∷◌, arith}
use shells.Dialogs.Keys.{esc_handler, dispatch}
use shells.Dialogs.Confirm.{
  Confirm, open_confirm, confirm, cancel, choose_active, confirm_key_handler, confirm_press, Act,
  pressed, clicked_confirm, clicked_cancel, clicked_overlay, confirm_act, confirm_acts,
}

-- Open with no answer and no callback, or closed with an answer and the one callback that goes with it.
abbrev pub IsSettledOnce : Confirm → Type 0
IsSettledOnce d =
    ((d.is_open ≡ true) × (d.result ≡ none) × (d.on_confirms ≡ 0) × (d.on_cancels ≡ 0))
    ⊎ ((d.is_open ≡ false) × (d.result ≡ some true) × (d.on_confirms ≡ 1) × (d.on_cancels ≡ 0))
    ⊎ ((d.is_open ≡ false) × (d.result ≡ some false) × (d.on_confirms ≡ 0) × (d.on_cancels ≡ 1))

confirm_act-IsSettledOnce :
    (a : Act) (d : Confirm) → IsSettledOnce d → IsSettledOnce (confirm_act a d)
unfolding confirm_act confirm_press dispatch confirm_key_handler esc_handler confirm cancel
    choose_active
confirm_act-IsSettledOnce (pressed e) d h = ground arith
confirm_act-IsSettledOnce clicked_confirm d h = ground arith
confirm_act-IsSettledOnce clicked_cancel d h = ground arith
confirm_act-IsSettledOnce clicked_overlay d h = ground arith

confirm_acts-IsSettledOnce :
    (acts : List Act) (d : Confirm) → IsSettledOnce d → IsSettledOnce (confirm_acts acts d)
unfolding confirm_acts
confirm_acts-IsSettledOnce [] d h = h
confirm_acts-IsSettledOnce (a ∷ acts) d h =
    confirm_acts-IsSettledOnce acts (confirm_act a d) (confirm_act-IsSettledOnce a d h)

-- Whatever keys are pressed and whatever is clicked, in any order: a `confirm` is open with no answer and
-- no callback, or it is closed, was answered once, and has called the one callback of its answer once.
pub confirm_acts_lem : (acts : List Act) → IsSettledOnce (confirm_acts acts open_confirm)
unfolding open_confirm
confirm_acts_lem acts = confirm_acts-IsSettledOnce acts open_confirm (inl (refl, refl, refl, refl))
