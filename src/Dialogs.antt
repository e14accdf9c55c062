-- ===== src/Dialogs.antt =====
-- The dialogs of public/js/tui-dialog.js with the overlay of public/js/tui-dialog/dom.js: what a key press,
-- a click and an answer do to an open dialog, and to all that are open.
pub mod Keys
pub mod Confirm
pub mod Select
pub mod Prompt
pub mod Status
pub mod Page
pub mod Dispatched
pub mod Confirmed
pub mod Shown
pub mod Selected
pub mod Cards
pub mod Prompted
pub mod Pressed
mod Examples
