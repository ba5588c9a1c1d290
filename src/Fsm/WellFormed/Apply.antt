-- ===== src/Fsm/WellFormed/Apply.antt =====
-- Every command keeps the shard well formed, so every log does.
use zuul.Shared.{Bool, none, some, List, [], ◌∷◌, All, ◌≢◌, refl, bytes_key}
use zuul.GoMap.{get-empty}
use zuul.Fsm.Types.{
  Fsm, new, Command, acquire_lock, campaign, release_lock, resign, cancel_wait, proclaim,
  lease_grant, lease_keep_alive, lease_revoke, lease_expire, unset,
}
use zuul.Fsm.Apply.{dispatch, apply, run}
use zuul.Fsm.WellFormed.Defs.{Wf}
use zuul.Fsm.WellFormed.Update.{Wf-same}
use zuul.Fsm.WellFormed.Acquire.{acquire-Wf}
use zuul.Fsm.WellFormed.Release.{release-Wf}
use zuul.Fsm.WellFormed.Queue.{cancel_wait-Wf, proclaim-Wf}
use zuul.Fsm.WellFormed.Leases.{lease_grant-Wf, lease_keep_alive-Wf}
use zuul.Fsm.WellFormed.Drop.{lease_revoke-Wf, lease_expire-Wf}

-- The server never asks for a lease of the empty client id.
abbrev pub IsNamed : Command → Type 0
IsNamed (lease_grant client _ _) = client ≢ []
IsNamed _ = Unit

dispatch-Wf : (f : Fsm) (c : Command) → IsNamed c → Wf [] f → Wf [] (dispatch f c).0
unfolding dispatch
dispatch-Wf f (acquire_lock name client try) n h = acquire-Wf f name client none try h
dispatch-Wf f (campaign name client value) n h = acquire-Wf f name client value _ h
dispatch-Wf f (release_lock name client token) n h = release-Wf f name client token h
dispatch-Wf f (resign name client token) n h = release-Wf f name client token h
dispatch-Wf f (cancel_wait name client) n h = cancel_wait-Wf f name client h
dispatch-Wf f (proclaim name client token value) n h = proclaim-Wf f name client token value h
dispatch-Wf f (lease_grant client ttl now) n h = lease_grant-Wf f client ttl now n h
dispatch-Wf f (lease_keep_alive client now) n h = lease_keep_alive-Wf f client now h
dispatch-Wf f (lease_revoke client) n h = lease_revoke-Wf f client h
dispatch-Wf f (lease_expire client now) n h = lease_expire-Wf f client now h
dispatch-Wf f unset n h = h

-- If the shard is well formed (its leases index exactly the keys that their clients hold and wait for,
-- each holder has a lease and waits nowhere on its own key, no client waits twice), it is so after any
-- command that does not grant a lease to the empty client id.
pub apply-Wf : (f : Fsm) (c : Command) → IsNamed c → Wf [] f → Wf [] (apply f (some c)).0
unfolding apply
apply-Wf f c n h = dispatch-Wf _ c n (Wf-same refl refl h)

pub new-Wf : (notifier : Bool) → Wf [] (new notifier)
unfolding new
new-Wf notifier = record {
  lock_ok = λ n. rw get-empty tt;
  lease_ok = λ c. rw get-empty tt;
  held_index = λ c n _. rw (get-empty, get-empty);
  waiting_index = λ c n _. rw (get-empty, get-empty);
}

run-Wf : (f : Fsm) (cs : List Command) → All IsNamed cs → Wf [] f → Wf [] (run f cs)
unfolding run
run-Wf f [] n h = h
run-Wf f (c ∷ cs) n h = run-Wf (apply f (some c)).0 cs n.1 (apply-Wf f c n.0 h)

-- A shard that starts empty is well formed after any log of commands none of which grants a lease to
-- the empty client id.
pub log-Wf : (notifier : Bool) (cs : List Command) → All IsNamed cs → Wf [] (run (new notifier) cs)
log-Wf notifier cs n = run-Wf (new notifier) cs n (new-Wf notifier)
