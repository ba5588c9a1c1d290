-- ===== src/Fsm/Tokens.antt =====
-- Fencing tokens ("seq is a single monotonic counter" in internal/raft/fsm/fsm.go).
mod Defs
pub mod Locks
pub mod Leases
pub mod Apply
pub use Defs.{Moved, Advance, LockNamed, Named, Wf-Named}
