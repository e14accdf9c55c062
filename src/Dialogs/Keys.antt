-- ===== src/Dialogs/Keys.antt =====
-- The key presses that the dialogs of `public/js/tui-dialog.js` distinguish, with their targets.
use shells.Prelude.{Bool, true, false, ◌&&◌, ◌||◌, if◌then◌else◌}

pub data KeyName : Type 0 where
  enter : KeyName
  space_key : KeyName
  escape_key : KeyName
  left : KeyName
  right : KeyName
  up : KeyName
  down : KeyName
  tab : KeyName
  other : KeyName

-- An event `keydown`, with what `isEditableTarget` looks at.
pub record KeyDown : Type 0 where
  pub key : KeyName
  pub has_target : Bool
  pub is_input : Bool
  pub is_textarea : Bool
  pub is_content_editable : Bool

-- `isEditableTarget`
unfoldable pub is_editable_target : KeyDown → Bool
is_editable_target e = e.has_target && (e.is_input || e.is_textarea || e.is_content_editable)

abbrev pub is_escape : KeyName → Bool
is_escape escape_key = true
is_escape _ = false

abbrev pub is_enter_or_space : KeyName → Bool
is_enter_or_space enter = true
is_enter_or_space space_key = true
is_enter_or_space _ = false

abbrev pub is_left_or_right : KeyName → Bool
is_left_or_right left = true
is_left_or_right right = true
is_left_or_right _ = false

-- The listener that `_bindOverlay` adds to the document.
unfoldable pub esc_handler {ℓ} : {D : Type ℓ} → (D → D) → KeyDown → D → D
esc_handler close_fn e d = if is_escape e.key then close_fn d else d

-- A click on the overlay closes where it is on the overlay itself.
unfoldable pub click_handler {ℓ} : {D : Type ℓ} → (D → D) → Bool → D → D
click_handler close_fn on_overlay d = if on_overlay then close_fn d else d

-- Two listeners of one event on a dialog; one that the first has removed is not called.
unfoldable pub dispatch {ℓ} : {D : Type ℓ} → (D → Bool) → (D → D) → (D → D) → D → D
dispatch is_open first second d =
    if is_open d then (let d' = first d in (if is_open d' then second d' else d')) else d
