-- ===== src/Dialogs/Page.antt =====
-- The dialogs that are open on a page at once: every one has its listeners on the document, and
-- `public/js/tui-dialog.js` keeps no record of which is on top.
use shells.Prelude.{Bool, List, [], ◌∷◌}
use shells.Dialogs.Keys.{KeyDown}
use shells.Dialogs.Confirm.{AlertBox, alert_press, Confirm, confirm_press}
use shells.Dialogs.Select.{Select, select_press}
use shells.Dialogs.Prompt.{Prompt, prompt_press}

-- A prompt comes with whether the key press is on its input.
pub data Dialog : Type 0 where
  of_alert : AlertBox → Dialog
  of_confirm : Confirm → Dialog
  of_select : Select → Dialog
  of_prompt : Bool → Prompt → Dialog

unfoldable pub press_one : KeyDown → Dialog → Dialog
unfolding alert_press confirm_press select_press prompt_press
press_one e (of_alert d) = of_alert (alert_press e d)
press_one e (of_confirm d) = of_confirm (confirm_press e d)
press_one e (of_select s) = of_select (select_press e s)
press_one e (of_prompt focused p) = of_prompt focused (prompt_press focused e p)

-- The document calls the listeners in the order in which the dialogs were opened; none stops the event.
unfoldable pub press_all : KeyDown → List Dialog → List Dialog
unfolding press_one
press_all e [] = []
press_all e (d ∷ ds) = press_one e d ∷ press_all e ds
