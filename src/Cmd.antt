-- ===== src/Cmd.antt =====
-- The builders of commands: internal/raft/cmd/cmd.go.
use zuul.Shared.{ℕ, Bytes, Bool, Option}
use zuul.Fsm.Types.{
  Command, acquire_lock, release_lock, cancel_wait, lease_grant, lease_keep_alive, lease_revoke,
  lease_expire, campaign, proclaim, resign,
}

abbrev pub acquire : Bytes → Bytes → Bool → Command
acquire name client try = acquire_lock name client try

abbrev pub release : Bytes → Bytes → ℕ → Command
release name client token = release_lock name client token

abbrev pub cancel : Bytes → Bytes → Command
cancel name client = cancel_wait name client

-- The three with a clock reading are stamped with the proposer's.
abbrev pub grant_lease : Bytes → ℕ → ℕ → Command
grant_lease client ttl_ms now = lease_grant client ttl_ms now

abbrev pub keep_alive : Bytes → ℕ → Command
keep_alive client now = lease_keep_alive client now

abbrev pub revoke : Bytes → Command
revoke client = lease_revoke client

abbrev pub expire : Bytes → ℕ → Command
expire client now = lease_expire client now

abbrev pub start_campaign : Bytes → Bytes → Option Bytes → Command
start_campaign name client value = campaign name client value

abbrev pub proclaim_value : Bytes → Bytes → ℕ → Option Bytes → Command
proclaim_value name client token value = proclaim name client token value

abbrev pub step_down : Bytes → Bytes → ℕ → Command
step_down name client token = resign name client token
