-- ===== src/Recents.antt =====
-- The recent folders, commands and backends: `public/js/shell/recents.js`.
pub mod Paths
pub mod Normal
pub mod State
pub mod Commands
pub mod Unique
pub mod Dots
pub mod Saved
pub mod Keeping
mod Examples
