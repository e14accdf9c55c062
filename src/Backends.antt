-- ===== src/Backends.antt =====
-- The backends of public/js/shell/backends.js: SSH addresses, the stored connections, the choice of a
-- backend and the creation of a session on it.
pub mod Text
pub mod Address
pub mod Printed
pub mod Labels
pub mod Choose
pub mod Chosen
pub mod Retries
pub mod Create
pub mod Launch
pub mod Remove
pub mod Removed
pub mod Complete
pub mod Completed
mod Examples
