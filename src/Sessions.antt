-- ===== src/Sessions.antt =====
-- The session core of public/js/shell-sessions.js.
pub mod State
pub mod Active
pub mod Roles
pub mod Lifecycle
pub mod Sleep
pub mod Frame
pub mod Navigation
pub mod Server
pub mod Settled
pub mod Destroy
pub mod Kept
pub mod Mounting
pub mod Sync
pub mod Fullscreen
pub mod Races
pub mod Restore
pub mod Choice
pub mod Restored
pub mod Control
pub mod Controlled
mod Examples
