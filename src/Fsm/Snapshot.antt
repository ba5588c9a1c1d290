-- ===== src/Fsm/Snapshot.antt =====
-- `Snapshot` and `Restore` of internal/raft/fsm/fsm.go, with the messages of
-- internal/raft/fsm/fsmpb/fsm.proto.
mod Copies
mod Indexes
pub mod RoundTrip
use zuul.Shared.{ℕ, Bytes, Option, none, some, List, [], ◌∷◌, ◌++◌, map, ite, ◌≟◌, bytes_key, Bool}
use zuul.GoMap.{GoMap, get, put, keys, sorted_keys}
use zuul.GoMap.Copy.{save_all, load_all}
use zuul.Fsm.Types.{Fsm, Lock, Lease, Waiter}

pub record WaiterState : Type 0 where
  pub client_id : Bytes
  pub enqueue_seq : ℕ
  pub value : Option Bytes

-- `holder` is the client id of the Owner message, if that is set.
pub record LockState : Type 0 where
  pub name : Bytes
  pub holder : Option Bytes
  pub token : ℕ
  pub value : Option Bytes
  pub queue : List WaiterState

pub record LeaseState : Type 0 where
  pub client_id : Bytes
  pub ttl_ms : ℕ
  pub expire_at_unix_nano : ℕ
  pub held_keys : List Bytes

pub record Snapshot : Type 0 where
  pub seq : ℕ
  pub revision : ℕ
  pub locks : List LockState
  pub leases : List LeaseState

unfoldable pub save_waiter : Waiter → WaiterState
save_waiter w = record { client_id = w.client_id; enqueue_seq = w.seq; value = w.value }

unfoldable pub save_lock : Bytes → Lock → LockState
unfolding save_waiter
save_lock name lk = record {
  name = name;
  holder = ite (lk.holder ≟ []) none (some lk.holder);
  token = lk.token;
  value = lk.value;
  queue = map save_waiter lk.queue;
}

unfoldable pub save_lease : Bytes → Lease → LeaseState
unfolding sorted_keys
save_lease client l = record {
  client_id = client;
  ttl_ms = l.ttl_ms;
  expire_at_unix_nano = l.expire_at;
  held_keys = sorted_keys l.held;
}

unfoldable pub snapshot : Fsm → Snapshot
unfolding save_all save_lock save_lease sorted_keys
snapshot f = record {
  seq = f.seq;
  revision = f.revision;
  locks = save_all save_lock f.locks (sorted_keys f.locks);
  leases = save_all save_lease f.leases (sorted_keys f.leases);
}

unfoldable pub load_waiter : WaiterState → Waiter
load_waiter w = record { client_id = w.client_id; seq = w.enqueue_seq; value = w.value }

abbrev holder_of : Option Bytes → Bytes
holder_of none = []
holder_of (some client) = client

unfoldable pub load_lock : LockState → Lock
unfolding load_waiter
load_lock l = record {
  name = l.name;
  holder = holder_of l.holder;
  token = l.token;
  value = l.value;
  queue = map load_waiter l.queue;
}

unfoldable pub load_lease : LeaseState → Lease
load_lease l = record {
  client_id = l.client_id;
  ttl_ms = l.ttl_ms;
  expire_at = l.expire_at_unix_nano;
  held = [];
  waiting = [];
}

-- if l := f.leases[client]; l != nil { change(l) }
abbrev pub changed : GoMap Bytes Lease → Bytes → (Lease → Lease) → Option Lease → GoMap Bytes Lease
changed m client change none = m
changed m client change (some l) = put m client (change l)

unfoldable pub change_lease : GoMap Bytes Lease → Bytes → (Lease → Lease) → GoMap Bytes Lease
change_lease m client change = changed m client change (get m client)

abbrev pub add_held : Bytes → Lease → Lease
add_held name l = record l { held = put l.held name tt }

abbrev pub add_waiting : Bytes → Lease → Lease
add_waiting name l = record l { waiting = put l.waiting name tt }

unfoldable pub index_holder : Lock → GoMap Bytes Lease → GoMap Bytes Lease
unfolding change_lease
index_holder lk m = ite (lk.holder ≟ []) m (change_lease m lk.holder (add_held lk.name))

unfoldable pub index_queue : Bytes → List Waiter → GoMap Bytes Lease → GoMap Bytes Lease
unfolding change_lease
index_queue name [] m = m
index_queue name (w ∷ ws) m = index_queue name ws (change_lease m w.client_id (add_waiting name))

unfoldable pub index_found : Option Lock → GoMap Bytes Lease → GoMap Bytes Lease
unfolding index_holder index_queue
index_found none m = m
index_found (some lk) m = index_queue lk.name lk.queue (index_holder lk m)

-- The loop over the lock map, whose keys come in any order.
unfoldable pub index_locks : GoMap Bytes Lock → List Bytes → GoMap Bytes Lease → GoMap Bytes Lease
unfolding index_found
index_locks locks [] m = m
index_locks locks (k ∷ ks) m = index_locks locks ks (index_found (get locks k) m)

unfoldable pub restore : Fsm → Snapshot → Fsm
unfolding load_all load_lock load_lease index_locks
restore f snap =
    let locks = load_all (λ (l : LockState). l.name) load_lock [] snap.locks in
    record f {
      seq = snap.seq;
      revision = snap.revision;
      locks = locks;
      leases =
          index_locks locks (keys locks)
            (load_all (λ (l : LeaseState). l.client_id) load_lease [] snap.leases);
    }
