-- ===== src/Examples/Sweeping.antt =====
-- The theorems on queues, expiry and sessions, applied to a shard in which three clients contend for a key.
use zuul.Shared.{
  ℕ, zero, suc, Bytes, Bool, true, false, Option, none, some, List, [], ◌∷◌, ◌≡◌, ◌≢◌, ◌&&◌, refl,
  arith, codes, All, length, ite, ◌≟◌, if◌then◌else◌, bytes_key, nat_key, is_some, signed_ltb,
}
use zuul.GoMap.{get, has}
use zuul.Fsm.Types.{
  Fsm, Lock, Lease, Waiter, Command, CommandResult, acquire_lock, release_lock, lease_grant, new,
}
use zuul.Fsm.Types
use zuul.Fsm.Locks
use zuul.Fsm.Leases
use zuul.Fsm.Apply.{run, apply}
use zuul.Fsm.Queries.{query, is_due}
use zuul.Fsm.WellFormed.{Wf, is_holder}
use zuul.Fsm.WellFormed.Apply.{log-Wf}
use zuul.Fsm.Progress.{hand_on_times, counted, queue_progress}
use zuul.Fsm.Expiry.{term}
use zuul.Auth.Authz.{allow_all}
use zuul.Consensus.Log.{apply-ok}
use zuul.Consensus.Host.{NodeHost, Host, lock_query, topology_query, AnyQuery, AnyAnswer}
use zuul.Consensus.Sweep.{expire_due}
use zuul.Consensus.Swept.{Serves, answer_of, expire_due-swept, expire_due-holders}
use zuul.Session.{Session, Manager, close_session}
use zuul.Session.Lapse.{committed}
use zuul.Session.Closed.{close_session-releases}
use zuul.Server.Waiting.{try_lock}
use zuul.Server.Granted.{Holds, proposes, ensures, try_lock-Holds}
use zuul.Examples.{key, ann, bob}
use zuul.Examples.Serving.{plain, same, plain-Lossless}

abbrev cat : Bytes
cat = codes "cat"

-- Ann holds the key; Bob and Cat wait for it, with longer leases.
abbrev line : List Command
line =
    lease_grant ann 30000 1000
    ∷ lease_grant bob 60000 1000
    ∷ lease_grant cat 60000 1000
    ∷ acquire_lock key ann false
    ∷ acquire_lock key bob false
    ∷ acquire_lock key cat false
    ∷ []

abbrev queue_shard : Fsm
queue_shard = run (new true) line

queue_shard-Wf : Wf [] queue_shard
queue_shard-Wf = log-Wf true line (
  (λ e. ground (arith, e)),
  ((λ e. ground (arith, e)), ((λ e. ground (arith, e)), (tt, (tt, (tt, tt))))),
)

abbrev waits_bob : Waiter
waits_bob = record { client_id = bob; seq = 2; value = none }

abbrev waits_cat : Waiter
waits_cat = record { client_id = cat; seq = 3; value = none }

abbrev held : Lock
held = record {
  name = key;
  holder = ann;
  token = 1;
  value = none;
  queue = waits_bob ∷ waits_cat ∷ [];
}

queue_shard-held : get queue_shard.locks key ≡ some held
unfolding run apply Types.new get Locks.acquire Leases.lease_grant zuul.Shared.bytes_dec
queue_shard-held = refl

queue_progress_example :
    get (hand_on_times 2 queue_shard key).locks key
    ≡ some
        (record held { holder = cat; token = counted 2 queue_shard.seq; value = none; queue = [] })
queue_progress_example =
    queue_progress queue_shard key held (waits_bob ∷ []) waits_cat [] queue_shard-Wf
      queue_shard-held refl

-- A Raft host that reads and commits at once.
abbrev lock_answers : (ℕ → Fsm) → ℕ → AnyQuery → Option AnyAnswer
lock_answers w s (lock_query q) = answer_of (query (w s) q)
lock_answers w s (topology_query q) = none

abbrev raft : NodeHost (ℕ → Fsm) Command CommandResult
raft = record {
  get_leader_id = λ w s. some (some 1);
  sync_propose = λ w s c. committed (plain Command) (plain CommandResult) w s c;
  sync_read = lock_answers;
  stale_read = lock_answers;
  sync_get_membership = λ w s. none;
  sync_request_add_node = λ w s id addr. (w, true);
  sync_request_delete_node = λ w s id. (w, true);
  request_leader_transfer = λ w s id. w;
}

raft-Serves : Serves raft same 1
raft-Serves = record {
  reads = λ w q. refl;
  commits = λ w c f. let (r, e) = apply-ok (w 1) c f in rw e (refl, refl);
}

abbrev host : Host
host = record {
  sessions = (1, tt) ∷ [];
  shards = 1 ∷ [];
  hosted = 1 ∷ [];
  meta_shard_id = 0;
  replica_id = 1;
  raft_addr = [];
  grpc_addr = [];
  node_host_id = [];
}

host-has : has host.sessions 1 ≡ true
unfolding get zuul.Shared.ℕ_discrete
host-has = refl

abbrev shards : ℕ → Fsm
shards s = queue_shard

-- Ann's lease is due.
abbrev later : ℕ
later = 40000000000

expire_due-swept_example :
    let out = expire_due raft (plain Command) host shards 1 later in
    ((c : Bytes)
      → term (get (out.0 1).leases c)
        ≡ (if is_due later (get (shards 1).leases c) then none else term (get (shards 1).leases c)))
    × ((j : ℕ) → 1 ≢ j → out.0 j ≡ shards j)
    × Wf [] (out.0 1)
    × (out.1 ≡ none)
expire_due-swept_example =
    expire_due-swept raft host (plain Command) same (plain-Lossless Command) 1 raft-Serves host-has
      shards later queue_shard-Wf

abbrev handed_to_bob : Lock
handed_to_bob = record { name = key; holder = bob; token = 4; value = none; queue = waits_cat ∷ [] }

handed_over :
    get ((expire_due raft (plain Command) host shards 1 later).0 1).locks key ≡ some handed_to_bob
unfolding run apply Types.new get Locks.acquire Leases.lease_grant zuul.Shared.bytes_dec expire_due
    query Leases.lease_expire Leases.drop_lease Locks.promote_to zuul.Shared.bytes_lt
handed_over = refl

expire_due-holders_example :
    (ls : Lease) × (get ((expire_due raft (plain Command) host shards 1 later).0 1).leases bob
      ≡ some ls)
    × (signed_ltb later ls.expire_at ≡ true)
expire_due-holders_example =
    expire_due-holders raft host (plain Command) same (plain-Lossless Command) 1 raft-Serves
      host-has shards later key handed_to_bob queue_shard-Wf handed_over

abbrev open_session : Session
open_session = record { ttl_ms = 30000; shards = (1, tt) ∷ [] }

abbrev sessions : Manager
sessions = (ann, open_session) ∷ []

ann_open : get sessions ann ≡ some open_session
unfolding get zuul.Shared.bytes_dec
ann_open = refl

close_session-releases_example :
    let out =
      close_session
        (committed (plain Command) (plain CommandResult))
        (plain Command)
        (plain CommandResult)
        shards
        sessions
        ann in
    (get out.1 ann ≡ none)
    × ((j : ℕ) → Wf [] (out.0 j))
    × ((j : ℕ) (c : Bytes)
        → term (get (out.0 j).leases c) ≡ (
            if has open_session.shards j
            then ite (ann ≟ c) none (term (get (shards j).leases c))
            else term (get (shards j).leases c)))
    × ((j : ℕ) (n : Bytes) → (has open_session.shards j && is_holder (out.0 j) ann n) ≡ false)
close_session-releases_example =
    close_session-releases (plain Command) (plain CommandResult) same same (plain-Lossless Command)
      (plain-Lossless CommandResult) ann shards sessions open_session (λ j. queue_shard-Wf)
      (λ e. ground (arith, e)) ann_open

try_lock-Holds_example :
    let out =
      try_lock
        (λ k. 1)
        allow_all
        ann
        (ensures (plain Command) (plain CommandResult) 2000)
        (proposes (plain Command) (plain CommandResult) 2000)
        (λ u k n. (u, none))
        (λ u. true)
        (shards, sessions)
        key
        ann in
    ((k : ℕ) → Wf [] (out.0.0 k)) × Holds (λ k. 1) key ann out
try_lock-Holds_example =
    try_lock-Holds (plain Command) (plain CommandResult) 2000 same same (plain-Lossless Command)
      (plain-Lossless CommandResult) (λ k. 1) allow_all ann (λ u k n. (u, none)) (λ u. true) key ann
      shards sessions (λ j. queue_shard-Wf)
