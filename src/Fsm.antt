-- ===== src/Fsm.antt =====
-- internal/raft/fsm: one shard's replicated state machine, and what is proved of it.
pub mod Types
pub mod Locks
pub mod Leases
pub mod Apply
pub mod Queries
pub mod Snapshot
pub mod WellFormed
pub mod Tokens
pub mod Values
pub mod Ownership
pub mod Handover
pub mod Progress
pub mod Expiry
