-- ===== src/Connection.antt =====
-- The connection to the server: `public/js/crypto.js`, and `getWs` with its helpers of
-- `public/js/shell-sessions.js`.
pub mod Hex
pub mod Sid
pub mod Crypto
pub mod Handshake
pub mod Trusted
pub mod Keyed
pub mod Agreed
pub mod Socket
pub mod Lock
pub mod Backoff
mod Examples
pub mod Login
pub mod Reached
pub mod Fetch
