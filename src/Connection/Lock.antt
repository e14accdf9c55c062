-- ===== src/Connection/Lock.antt =====
-- A lock is not undone, by a handshake that is on its way when it comes or by a later one.
use shells.Prelude.{◌≡◌, true, none, str_eq}
use shells.Connection.Handshake.{Conn}

-- Nothing of the secret is stored once a lock is on its way.
abbrev pub KeepsLock : Conn → Type 0
KeepsLock c = c.lock_pending ≡ true → (c.stored_hash ≡ none) × (c.stored_salt ≡ none)
