-- ===== src/Fsm/Apply.antt =====
-- `Apply` of internal/raft/fsm/fsm.go, which dispatches to the operations on locks and leases.
use zuul.Shared.{Option, none, some, List, [], ◌∷◌, false, inc64}
use zuul.Fsm.Types.{
  Fsm, Command, acquire_lock, campaign, release_lock, resign, cancel_wait, proclaim, lease_grant,
  lease_keep_alive, lease_revoke, lease_expire, unset, nil_command, unknown_command, Applied, ok,
  err,
}
use zuul.Fsm.Locks
use zuul.Fsm.Leases

-- A command's effect, once `f.revision++` has been made.
unfoldable pub dispatch : Fsm → Command → Fsm × Applied
dispatch f (acquire_lock name client try) =
    let (g, r) = Locks.acquire f name client none try in (g, ok r)
dispatch f (campaign name client value) =
    let (g, r) = Locks.acquire f name client value false in (g, ok r)
dispatch f (release_lock name client token) =
    let (g, r) = Locks.release f name client token in (g, ok r)
dispatch f (resign name client token) = let (g, r) = Locks.release f name client token in (g, ok r)
dispatch f (cancel_wait name client) = let (g, r) = Locks.cancel_wait f name client in (g, ok r)
dispatch f (proclaim name client token value) =
    let (g, r) = Locks.proclaim f name client token value in (g, ok r)
dispatch f (lease_grant client ttl now) =
    let (g, r) = Leases.lease_grant f client ttl now in (g, ok r)
dispatch f (lease_keep_alive client now) =
    let (g, r) = Leases.lease_keep_alive f client now in (g, ok r)
dispatch f (lease_revoke client) = let (g, r) = Leases.lease_revoke f client in (g, ok r)
dispatch f (lease_expire client now) = let (g, r) = Leases.lease_expire f client now in (g, ok r)
dispatch f unset = (f, err unknown_command)

-- A nil command is refused before anything changes.
unfoldable pub apply : Fsm → Option Command → Fsm × Applied
unfolding dispatch
apply f none = (f, err nil_command)
apply f (some c) = dispatch (record f { revision = inc64 f.revision }) c

-- The committed commands of a log, in order.
unfoldable pub run : Fsm → List Command → Fsm
run f [] = f
run f (c ∷ cs) = run (apply f (some c)).0 cs
