-- ===== src/Dialogs/Confirm.antt =====
-- `alert` and `confirm` of `public/js/tui-dialog.js`. A dialog is open until `_cleanup` has removed its
-- overlay and its listeners.
use shells.Prelude.{ℕ, suc, Bool, true, false, Option, none, some, List, [], ◌∷◌, if◌then◌else◌}
use shells.Dialogs.Keys.{
  KeyDown, is_editable_target, is_enter_or_space, is_left_or_right, esc_handler, dispatch,
}

-- What a promise is after `resolve`: it keeps the first value.
abbrev pub resolve_promise {ℓ} : {A : Type ℓ} → A → Option A → Option A
resolve_promise a none = some a
resolve_promise a (some b) = some b

pub record AlertBox : Type 0 where
  pub is_open : Bool
  pub result : Option Bool

unfoldable pub open_alert : AlertBox
open_alert = record { is_open = true; result = none }

unfoldable pub alert_done : AlertBox → AlertBox
alert_done d = record { is_open = false; result = resolve_promise true d.result }

unfoldable pub alert_key_handler : KeyDown → AlertBox → AlertBox
unfolding is_editable_target alert_done
alert_key_handler e d =
    if is_editable_target e then d else if is_enter_or_space e.key then alert_done d else d

unfoldable pub alert_press : KeyDown → AlertBox → AlertBox
unfolding dispatch alert_key_handler esc_handler alert_done
alert_press e = dispatch (λ d. d.is_open) (alert_key_handler e) (esc_handler alert_done e)

pub data ConfirmChoice : Type 0 where
  cancel_choice : ConfirmChoice
  confirm_choice : ConfirmChoice

-- With the numbers of the calls of `opts.onConfirm` and `opts.onCancel`.
pub record Confirm : Type 0 where
  pub is_open : Bool
  pub active_choice : ConfirmChoice
  pub result : Option Bool
  pub on_confirms : ℕ
  pub on_cancels : ℕ

unfoldable pub open_confirm : Confirm
open_confirm = record {
  is_open = true;
  active_choice = confirm_choice;
  result = none;
  on_confirms = 0;
  on_cancels = 0;
}

unfoldable pub confirm : Confirm → Confirm
confirm d = record d {
  is_open = false;
  on_confirms = suc d.on_confirms;
  result = resolve_promise true d.result;
}

unfoldable pub cancel : Confirm → Confirm
cancel d = record d {
  is_open = false;
  on_cancels = suc d.on_cancels;
  result = resolve_promise false d.result;
}

abbrev pub other_choice : ConfirmChoice → ConfirmChoice
other_choice confirm_choice = cancel_choice
other_choice cancel_choice = confirm_choice

unfoldable pub choose_active : ConfirmChoice → Confirm → Confirm
unfolding confirm cancel
choose_active confirm_choice d = confirm d
choose_active cancel_choice d = cancel d

unfoldable pub confirm_key_handler : KeyDown → Confirm → Confirm
unfolding is_editable_target choose_active
confirm_key_handler e d =
    if is_editable_target e
    then d
    else if is_left_or_right e.key
    then record d { active_choice = other_choice d.active_choice }
    else if is_enter_or_space e.key
    then choose_active d.active_choice d
    else d

unfoldable pub confirm_press : KeyDown → Confirm → Confirm
unfolding dispatch confirm_key_handler esc_handler cancel
confirm_press e = dispatch (λ d. d.is_open) (confirm_key_handler e) (esc_handler cancel e)

-- What a user does to a `confirm`.
pub data Act : Type 0 where
  pressed : KeyDown → Act
  clicked_confirm : Act
  clicked_cancel : Act
  clicked_overlay : Act

-- The buttons and the overlay leave the page with `_cleanup`.
unfoldable pub confirm_act : Act → Confirm → Confirm
unfolding confirm_press confirm cancel
confirm_act (pressed e) d = confirm_press e d
confirm_act clicked_confirm d = if d.is_open then confirm d else d
confirm_act clicked_cancel d = if d.is_open then cancel d else d
confirm_act clicked_overlay d = if d.is_open then cancel d else d

unfoldable pub confirm_acts : List Act → Confirm → Confirm
unfolding confirm_act
confirm_acts [] d = d
confirm_acts (a ∷ acts) d = confirm_acts acts (confirm_act a d)
