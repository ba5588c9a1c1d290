-- ===== src/Fsm/WellFormed.antt =====
-- What holds of a shard between two commands (the comments on `lock`, `lease` and `FSM` in
-- internal/raft/fsm/fsm.go), and the operations that keep it.
mod Defs
mod Update
mod Acquire
mod Promote
mod Release
mod Queue
mod Leases
mod Loops
mod Drop
pub mod Apply
pub use Defs.{
  queued, Distinct, held_by, waited_by, holds, waits, is_holder, is_queued, in_held, in_waiting,
  LockOk, LeaseOk, Wf, lease-client, lock-Ok, lock_found,
}
pub use Acquire.{emit_locks, emit_leases}
pub use Update.{Wf-same}
pub use Release.{refusal-none}
