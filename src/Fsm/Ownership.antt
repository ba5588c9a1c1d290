-- ===== src/Fsm/Ownership.antt =====
-- Who can take a key from its holder.
pub mod Keeps
mod Locks
pub mod Apply
