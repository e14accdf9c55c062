-- ===== src/Touch/Rotation.antt =====
-- The layout of a mobile device: `applyMobileLayout` of `public/js/mobile.js`.
use shells.Prelude.{
  ◌≡◌, ℕ, Bool, true, false, Option, none, some, List, [], ◌∷◌, ◌+◌, ltb, if◌then◌else◌, arith,
}
use shells.Layout.{Mode, columns, rows}

-- The layout mode, and the one that is kept for the desktop.
pub record Layouts : Type 0 where
  pub layout_mode : Mode
  pub saved : Option Mode

-- The size of the window, and whether it is that of a mobile device.
pub record Window : Type 0 where
  pub mobile : Bool
  pub width : ℕ
  pub height : ℕ

abbrev pub or_mode : Option Mode → Mode → Mode
or_mode none mode = mode
or_mode (some saved) mode = saved

-- The 120 pixels keep the change of the height by a keyboard from turning the layout.
unfoldable pub mobile_mode : Window → Mode
mobile_mode w = if ltb (w.height + 120) w.width then columns else rows

unfoldable pub to_desktop : Layouts → Option Mode → Layouts
to_desktop l none = l
to_desktop l (some mode) = record { layout_mode = mode; saved = none }

unfoldable pub apply_mobile_layout : Layouts → Window → Layouts
unfolding mobile_mode to_desktop
apply_mobile_layout l w =
    if w.mobile
    then record { layout_mode = mobile_mode w; saved = some (or_mode l.saved l.layout_mode) }
    else to_desktop l l.saved

-- The layouts after a sequence of resizes.
abbrev pub resizes : Layouts → List Window → Layouts
resizes l [] = l
resizes l (w ∷ ws) = resizes (apply_mobile_layout l w) ws

abbrev pub AreMobile : List Window → Type 0
AreMobile [] = Unit
AreMobile (w ∷ ws) = (w.mobile ≡ true) × AreMobile ws

kept :
    (l : Layouts) (ws : List Window) (mode : Mode)
    → AreMobile ws
    → l.saved ≡ some mode
    → (resizes l ws).saved ≡ some mode
unfolding apply_mobile_layout
kept l [] mode h e = e
kept l (w ∷ ws) mode (m, h) e = kept (apply_mobile_layout l w) ws mode h (ground arith)

-- A desktop layout that no resize has saved yet is there again, and nothing is saved, after one or more
-- resizes of a mobile window, in whatever orientations, and one to a desktop window.
pub resizes_lem :
    (l : Layouts) (w : Window) (ws : List Window) (desktop : Window)
    → l.saved ≡ none
    → AreMobile (w ∷ ws)
    → desktop.mobile ≡ false
    → apply_mobile_layout (resizes l (w ∷ ws)) desktop ≡ l
unfolding apply_mobile_layout to_desktop
resizes_lem l w ws desktop e (m, h) d =
    let u = apply_mobile_layout l w in
    let k = kept u ws l.layout_mode h (ground arith) in rw (d, k) (ground arith)
