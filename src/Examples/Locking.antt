-- ===== src/Examples/Locking.antt =====
-- The theorems on a shard, applied to one that two clients contend for.
use zuul.Shared.{
  ℕ, Bytes, Bool, true, false, Option, none, some, List, [], ◌∷◌, All, ◌≡◌, ◌≢◌, ◌⊎◌, ◌<◌, refl,
  arith, bytes_key, nat_key, ite, ◌≟◌, u64_mod, ◌+◌,
}
use zuul.GoMap.{get}
use zuul.Fsm.Types.{
  Fsm, Lock, Waiter, Command, CommandResult, acquire_lock, release_lock, released, new, ok, granted,
}
use zuul.Fsm.Types
use zuul.Fsm.Locks
use zuul.Fsm.Leases
use zuul.Fsm.Apply.{run, apply}
use zuul.Fsm.WellFormed.{Wf}
use zuul.Fsm.WellFormed.Apply.{log-Wf}
use zuul.Fsm.Tokens.Apply.{fencing, HasRoom, cost, apply-Advance}
use zuul.Fsm.Ownership.Apply.{apply-Ends, Ends}
use zuul.Fsm.Ownership.Keeps.{SameHold}
use zuul.Fsm.Tokens.{Advance}
use zuul.Fsm.Handover.{release-handed, acquire-granted, handed, owner_of}
use zuul.Fsm.Snapshot.{restore, snapshot}
use zuul.Fsm.Snapshot.RoundTrip.{SameShard, restore-snapshot}
use zuul.Examples.{key, ann, bob, past, past-IsNamed, future, shard, shard-Wf}

abbrev before : Lock
before = record {
  name = key;
  holder = ann;
  token = 1;
  value = none;
  queue = record { client_id = bob; seq = 2; value = none } ∷ [];
}

abbrev after : Lock
after = record { name = key; holder = bob; token = 3; value = none; queue = [] }

shard-before : get shard.locks key ≡ some before
unfolding run apply Types.new get Locks.acquire Leases.lease_grant zuul.Shared.bytes_dec
shard-before = refl

shard-after : get (run shard future).locks key ≡ some after
unfolding run apply Types.new get Locks.release Locks.acquire Leases.lease_grant
    zuul.Shared.bytes_dec Locks.promote_to
shard-after = refl

past-HasRoom : HasRoom (new true) past
unfolding run apply Types.new get Locks.release Locks.acquire Leases.lease_grant
    zuul.Shared.bytes_dec Locks.promote_to
past-HasRoom = (omega arith, (omega arith, (omega arith, (omega arith, tt))))

future-HasRoom : HasRoom shard future
unfolding run apply Types.new get Locks.release Locks.acquire Leases.lease_grant
    zuul.Shared.bytes_dec Locks.promote_to
future-HasRoom = (omega arith, tt)

fencing_example : ((ann ≡ bob) × ◌≡◌ {A = ℕ} 1 3) ⊎ (1 < 3)
fencing_example =
    fencing true past future key before after past-IsNamed (tt, tt) past-HasRoom future-HasRoom
      shard-before shard-after

apply-Ends_example :
    SameHold before (get (apply shard (some (release_lock key ann 7))).0.locks key)
    ⊎ Ends shard key before (release_lock key ann 7)
apply-Ends_example = apply-Ends shard (release_lock key ann 7) key before shard-Wf shard-before

log-Wf_example : Wf [] (run (new true) past)
log-Wf_example = log-Wf true past past-IsNamed

shard-room : shard.seq + cost shard (release_lock key ann 1) < u64_mod
unfolding run apply Types.new get Locks.acquire Leases.lease_grant zuul.Shared.bytes_dec
shard-room = omega arith

apply-Advance_example : Advance 1 shard (apply shard (some (release_lock key ann 1))).0
apply-Advance_example = apply-Advance shard (release_lock key ann 1) shard-Wf shard-room

release-handed_example :
    ((k : Bytes)
      → get (apply shard (some (release_lock key ann 1))).0.locks k
        ≡ ite (key ≟ k) (handed before before.queue shard.seq) (get shard.locks k))
    × ((r : CommandResult) × ((apply shard (some (release_lock key ann 1))).1 ≡ ok r)
        × (r.outcome ≡ released))
release-handed_example = release-handed shard key before shard-Wf shard-before

held-again : (Locks.acquire shard key ann none false).1.outcome ≡ granted
unfolding run apply Types.new get Locks.acquire Leases.lease_grant zuul.Shared.bytes_dec
held-again = refl

acquire-granted_example :
    owner_of (get (Locks.acquire shard key ann none false).0.locks key)
    ≡ some (ann, (Locks.acquire shard key ann none false).1.fencing_token)
acquire-granted_example = acquire-granted shard key ann none false shard-Wf held-again

restore-snapshot_example : SameShard shard (restore (new false) (snapshot shard))
restore-snapshot_example = restore-snapshot shard shard-Wf (new false)
