-- ===== src/Dialogs/Pressed.antt =====
-- What one key press does to all the dialogs of a page.
use shells.Prelude.{
  ◌≡◌, Bool, true, false, Option, none, some, List, [], ◌∷◌, ◌++◌, Str, All, arith, get_elem?,
}
use shells.Dialogs.Keys.{KeyDown, escape_key, esc_handler, dispatch}
use shells.Dialogs.Confirm.{
  alert_done, alert_key_handler, alert_press, ConfirmChoice, cancel_choice, confirm_choice, cancel,
  confirm_key_handler, confirm_press,
}
use shells.Dialogs.Select.{Choosable, Select, close_select, select_key_handler, select_press}
use shells.Dialogs.Prompt.{Prompt, cancel_prompt, input_key, prompt_press}
use shells.Dialogs.Page.{Dialog, of_alert, of_confirm, of_select, of_prompt, press_one, press_all}

-- Not answered yet.
abbrev pub IsWaiting : Dialog → Type 0
IsWaiting (of_alert d) = (d.is_open ≡ true) × (d.result ≡ none)
IsWaiting (of_confirm d) = (d.is_open ≡ true) × (d.result ≡ none)
IsWaiting (of_select s) = (s.is_open ≡ true) × (s.result ≡ none)
IsWaiting (of_prompt focused p) = (p.is_open ≡ true) × (p.result ≡ none)

-- Closed without a choice.
abbrev pub IsDismissed : Dialog → Type 0
IsDismissed (of_alert d) = (d.is_open ≡ false) × (d.result ≡ some true)
IsDismissed (of_confirm d) = (d.is_open ≡ false) × (d.result ≡ some false)
IsDismissed (of_select s) = (s.is_open ≡ false) × (s.result ≡ some none)
IsDismissed (of_prompt focused p) = (p.is_open ≡ false) × (p.result ≡ some none)

press_one-escape_key :
    (e : KeyDown) (d : Dialog) → e.key ≡ escape_key → IsWaiting d → IsDismissed (press_one e d)
unfolding press_one alert_press confirm_press select_press prompt_press dispatch alert_key_handler
    confirm_key_handler select_key_handler input_key esc_handler alert_done cancel close_select
    cancel_prompt
press_one-escape_key e (of_alert d) k h = ground arith
press_one-escape_key e (of_confirm d) k h = ground arith
press_one-escape_key e (of_select s) k h = ground arith
press_one-escape_key e (of_prompt focused p) k h = ground arith

-- One press of Escape dismisses every open dialog of the page, with whatever has the focus: the ones below
-- the uppermost too, and a prompt also where its suggestions are shown.
pub press_all-escape_key :
    (e : KeyDown) (ds : List Dialog)
    → e.key ≡ escape_key
    → All IsWaiting ds
    → All IsDismissed (press_all e ds)
unfolding press_all
press_all-escape_key e [] k h = tt
press_all-escape_key e (d ∷ ds) k (w, h) =
    (press_one-escape_key e d k w, press_all-escape_key e ds k h)

abbrev pub is_confirm : ConfirmChoice → Bool
is_confirm confirm_choice = true
is_confirm cancel_choice = false

-- Not answered yet, and no prompt has the focus.
abbrev pub IsBelow : Dialog → Type 0
IsBelow (of_prompt focused p) = (focused ≡ false) × (p.is_open ≡ true)
IsBelow d = IsWaiting d

-- What becomes of a select by its active card: nothing where the card is disabled; where choices are applied
-- immediately, the value is applied and the select stays open; and else it is closed with the value.
abbrev pub IsByCard : (disabled immediate : Bool) → Str → Select → Select → Type 0
IsByCard true immediate v s s' = s' ≡ s
IsByCard false true v s s' =
    (s'.is_open ≡ s.is_open)
    × (s'.result ≡ s.result)
    × (s'.current ≡ some v)
    × (s'.applied ≡ s.applied ++ v ∷ [])
IsByCard false false v s s' = (s'.is_open ≡ false) × (s'.result ≡ some (some v))

abbrev pub IsCardTaken : Option Choosable → Select → Select → Type 0
IsCardTaken none s s' = s' ≡ s
IsCardTaken (some o) s s' = IsByCard o.disabled s.config.apply_immediately o.value s s'

-- An alert is closed, a confirm is closed with the choice that is active, the active card of a select is taken,
-- and a prompt stays as it is.
abbrev pub IsTaken : Dialog → Dialog → Type 0
IsTaken (of_alert d) (of_alert d') = (d'.is_open ≡ false) × (d'.result ≡ some true)
IsTaken (of_confirm d) (of_confirm d') =
    (d'.is_open ≡ false) × (d'.result ≡ some (is_confirm d.active_choice))
IsTaken (of_select s) (of_select s') = IsCardTaken (get_elem? s.filtered s.active_idx) s s'
IsTaken (of_prompt focused p) d' = d' ≡ of_prompt focused p
IsTaken d d' = ⊥

abbrev pub AllTaken : List Dialog → List Dialog → Type 0
AllTaken [] [] = Unit
AllTaken (d ∷ ds) (d' ∷ ds') = IsTaken d d' × AllTaken ds ds'
AllTaken ds ds' = ⊥
