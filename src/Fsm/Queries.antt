-- ===== src/Fsm/Queries.antt =====
-- The reads of internal/raft/fsm/fsm.go: `Query` and what it dispatches to.
use zuul.Shared.{
  ℕ, ◌+◌, Bytes, Bool, true, false, Option, none, some, List, [], ◌∷◌, ite, ◌≟◌, if◌then◌else◌, not,
  u32, length, signed_ltb, is_some, bytes_key,
}
use zuul.GoMap.{get, sorted_keys}
use zuul.Auth.Keypath.{has_prefix}
use zuul.Fsm.Types.{Fsm, Lock, Lease, Waiter}

pub record Status : Type 0 where
  pub held : Bool
  pub holder : Bytes
  pub token : ℕ
  pub value : Option Bytes
  pub queue_depth : ℕ
  pub revision : ℕ

pub record LeaseInfo : Type 0 where
  pub exists : Bool
  pub ttl_millis : ℕ
  pub expire_at_unix_nano : ℕ
  pub held_keys : List Bytes
  pub revision : ℕ

pub record LockSummary : Type 0 where
  pub name : Bytes
  pub held : Bool
  pub holder : Bytes
  pub token : ℕ
  pub has_value : Bool
  pub queue_depth : ℕ

pub record LockSummaries : Type 0 where
  pub locks : List LockSummary
  pub revision : ℕ

pub record WaiterInfo : Type 0 where
  pub client_id : Bytes
  pub seq : ℕ
  pub position : ℕ

pub record Waiters : Type 0 where
  pub held : Bool
  pub holder : Bytes
  pub token : ℕ
  pub value : Option Bytes
  pub entries : List WaiterInfo
  pub revision : ℕ

-- A value of another type than these queries is `other_query`.
pub data Query : Type 0 where
  status_query : (name : Bytes) → Query
  lease_query : (client_id : Bytes) → Query
  due_leases_query : (now : ℕ) → Query
  list_locks_query : (prefix : Bytes) → Query
  waiters_query : (name : Bytes) → Query
  other_query : Query

pub data Answer : Type 0 where
  status_answer : Status → Answer
  lease_answer : LeaseInfo → Answer
  due_answer : List Bytes → Answer
  locks_answer : LockSummaries → Answer
  waiters_answer : Waiters → Answer

no_status : ℕ → Status
no_status revision = record {
  held = false;
  holder = [];
  token = 0;
  value = none;
  queue_depth = 0;
  revision = revision;
}

status_found : ℕ → Option Lock → Status
unfolding no_status
status_found revision none = no_status revision
status_found revision (some lk) = ite (lk.holder ≟ []) (no_status revision) (record {
  held = true;
  holder = lk.holder;
  token = lk.token;
  value = lk.value;
  queue_depth = u32 (length lk.queue);
  revision = revision;
})

unfoldable pub status : Fsm → Bytes → Status
unfolding status_found
status f name = status_found f.revision (get f.locks name)

-- The loop over the queue, `i` waiters passed.
unfoldable pub waiter_infos : ℕ → List Waiter → List WaiterInfo
waiter_infos i [] = []
waiter_infos i (w ∷ ws) =
    record { client_id = w.client_id; seq = w.seq; position = u32 (i + 1) }
    ∷ waiter_infos (i + 1) ws

no_waiters : ℕ → Waiters
no_waiters revision = record {
  held = false;
  holder = [];
  token = 0;
  value = none;
  entries = [];
  revision = revision;
}

waiters_found : ℕ → Option Lock → Waiters
unfolding no_waiters waiter_infos
waiters_found revision none = no_waiters revision
waiters_found revision (some lk) = ite (lk.holder ≟ []) (no_waiters revision) (record {
  held = true;
  holder = lk.holder;
  token = lk.token;
  value = lk.value;
  entries = waiter_infos 0 lk.queue;
  revision = revision;
})

unfoldable pub waiters : Fsm → Bytes → Waiters
unfolding waiters_found
waiters f name = waiters_found f.revision (get f.locks name)

lease_info_found : ℕ → Option Lease → LeaseInfo
unfolding sorted_keys
lease_info_found revision none = record {
  exists = false;
  ttl_millis = 0;
  expire_at_unix_nano = 0;
  held_keys = [];
  revision = revision;
}
lease_info_found revision (some ls) = record {
  exists = true;
  ttl_millis = ls.ttl_ms;
  expire_at_unix_nano = ls.expire_at;
  held_keys = sorted_keys ls.held;
  revision = revision;
}

unfoldable pub lease_info : Fsm → Bytes → LeaseInfo
unfolding lease_info_found
lease_info f client = lease_info_found f.revision (get f.leases client)

-- f.leases[clientID].expireAt <= now
unfoldable pub is_due : ℕ → Option Lease → Bool
is_due now none = false
is_due now (some ls) = not (signed_ltb now ls.expire_at)

-- The loop of `dueLeases` over the sorted client ids.
unfoldable pub due_among : Fsm → ℕ → List Bytes → List Bytes
unfolding is_due
due_among f now [] = []
due_among f now (c ∷ cs) =
    let rest = due_among f now cs in if is_due now (get f.leases c) then c ∷ rest else rest

unfoldable pub due_leases : Fsm → ℕ → List Bytes
unfolding due_among sorted_keys
due_leases f now = due_among f now (sorted_keys f.leases)

unfoldable pub summary : Bytes → Lock → LockSummary
summary name lk = record {
  name = name;
  held = true;
  holder = lk.holder;
  token = lk.token;
  has_value = is_some lk.value;
  queue_depth = u32 (length lk.queue);
}

-- The body of the loop of `listLocks`: `rest` is what the later keys give.
unfoldable pub listed : Bytes → Bytes → Option Lock → List LockSummary → List LockSummary
unfolding summary has_prefix
listed prefix name none rest = rest
listed prefix name (some lk) rest =
    ite (lk.holder ≟ []) rest
      (if not (has_prefix prefix name) then rest else summary name lk ∷ rest)

unfoldable pub list_among : Fsm → Bytes → List Bytes → List LockSummary
unfolding listed
list_among f prefix [] = []
list_among f prefix (name ∷ names) =
    listed prefix name (get f.locks name) (list_among f prefix names)

unfoldable pub list_locks : Fsm → Bytes → LockSummaries
unfolding list_among sorted_keys
list_locks f prefix = record {
  locks = list_among f prefix (sorted_keys f.locks);
  revision = f.revision;
}

-- none where the source returns an error
unfoldable pub query : Fsm → Query → Option Answer
unfolding status lease_info due_leases list_locks waiters
query f (status_query name) = some (status_answer (status f name))
query f (lease_query client) = some (lease_answer (lease_info f client))
query f (due_leases_query now) = some (due_answer (due_leases f now))
query f (list_locks_query prefix) = some (locks_answer (list_locks f prefix))
query f (waiters_query name) = some (waiters_answer (waiters f name))
query f other_query = none
