-- ===== src/Fsm/Types.antt =====
-- The state of a shard (internal/raft/fsm/fsm.go), and the commands and results of
-- internal/raft/fsm/fsmpb/fsm.proto.
use zuul.Shared.{ℕ, Bytes, Bool, Option, none, List, [], ◌∷◌, ◌++◌, if◌then◌else◌, bytes_key}
use zuul.GoMap.{GoMap}

-- An ownership change, handed to the notifier.
pub record Event : Type 0 where
  pub key : Bytes
  pub holder : Bytes
  pub token : ℕ
  pub value : Option Bytes
  pub revision : ℕ

-- `value` is nil (`none`) for a plain lock.
pub record Waiter : Type 0 where
  pub client_id : Bytes
  pub seq : ℕ
  pub value : Option Bytes

-- The empty holder stands for a free key.
pub record Lock : Type 0 where
  pub name : Bytes
  pub holder : Bytes
  pub token : ℕ
  pub value : Option Bytes
  pub queue : List Waiter

-- map[string]struct{}
abbrev pub KeySet : Type 0
KeySet = GoMap Bytes (Unit {0})

-- `ttl_ms` and `expire_at` are int64 patterns.
pub record Lease : Type 0 where
  pub client_id : Bytes
  pub ttl_ms : ℕ
  pub expire_at : ℕ
  pub held : KeySet
  pub waiting : KeySet

-- `notifier` says whether a Notifier is configured, `events` is what it was handed, oldest first.
pub record Fsm : Type 0 where
  pub locks : GoMap Bytes Lock
  pub leases : GoMap Bytes Lease
  pub seq : ℕ
  pub revision : ℕ
  pub notifier : Bool
  pub events : List Event

unfoldable pub new : Bool → Fsm
new notifier = record {
  locks = [];
  leases = [];
  seq = 0;
  revision = 0;
  notifier = notifier;
  events = [];
}

-- The oneof of a command message; `unset` is the message with no field set.
pub data Command : Type 0 where
  acquire_lock : (name client : Bytes) (try_lock : Bool) → Command
  release_lock : (name client : Bytes) (token : ℕ) → Command
  cancel_wait : (name client : Bytes) → Command
  lease_grant : (client : Bytes) (ttl_ms now : ℕ) → Command
  lease_keep_alive : (client : Bytes) (now : ℕ) → Command
  lease_revoke : (client : Bytes) → Command
  lease_expire : (client : Bytes) (now : ℕ) → Command
  campaign : (name client : Bytes) (value : Option Bytes) → Command
  proclaim : (name client : Bytes) (token : ℕ) (value : Option Bytes) → Command
  resign : (name client : Bytes) (token : ℕ) → Command
  unset : Command

pub data Outcome : Type 0 where
  unknown granted queued not_acquired released not_holder stale_token no_lease : Outcome
  lease_granted lease_renewed lease_revoked lease_expired value_updated not_found noop : Outcome

pub Outcome-discrete : Discrete Outcome
Outcome-discrete = hlevel

pub record CommandResult : Type 0 where
  pub outcome : Outcome
  pub revision : ℕ
  pub fencing_token : ℕ
  pub lock_key : Bytes
  pub queue_position : ℕ
  pub current_holder : Bytes
  pub lease_deadline : ℕ
  pub value : Option Bytes

-- The errors of `Apply`: log corruption.
pub data ApplyError : Type 0 where
  nil_command unknown_command : ApplyError

pub data Applied : Type 0 where
  ok : CommandResult → Applied
  err : ApplyError → Applied

-- A result stamped with the revision, its other fields unset.
unfoldable pub result : Fsm → Outcome → CommandResult
result f o = record {
  outcome = o;
  revision = f.revision;
  fencing_token = 0;
  lock_key = [];
  queue_position = 0;
  current_holder = [];
  lease_deadline = 0;
  value = none;
}

unfoldable pub result_key : Fsm → Outcome → Bytes → CommandResult
unfolding result
result_key f o key = record (result f o) { lock_key = key }

unfoldable pub emit : Fsm → Bytes → Bytes → ℕ → Option Bytes → Fsm
emit f key holder token value =
    if f.notifier
    then record f {
      events =
          f.events
          ++ (record {
            key = key;
            holder = holder;
            token = token;
            value = value;
            revision = f.revision;
          }
              ∷ []);
    }
    else f
