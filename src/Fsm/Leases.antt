-- ===== src/Fsm/Leases.antt =====
-- internal/raft/fsm/leases.go: the operations on leases.
use zuul.Shared.{
  ℕ, Bytes, Option, none, some, List, [], ◌∷◌, ite, if◌then◌else◌, ◌≟◌, add64, mul64, signed_ltb,
  bytes_key,
}
use zuul.GoMap.{get, put, delete, sorted_keys}
use zuul.Fsm.Types.{
  Fsm, Lock, Lease, Waiter, CommandResult, result, lease_granted, lease_renewed, lease_revoked,
  lease_expired, not_found, noop,
}
use zuul.Fsm.Locks.{promote, remove_first}

-- now + ttlMS * int64(time.Millisecond)
abbrev pub millisecond : ℕ
millisecond = 1000000

unfoldable pub lease_deadline : ℕ → ℕ → ℕ
lease_deadline now ttl_ms = add64 now (mul64 ttl_ms millisecond)

-- ls := f.leases[clientID], or a new lease.
unfoldable pub lease_of : Bytes → Option Lease → Lease
lease_of client none = record {
  client_id = client;
  ttl_ms = 0;
  expire_at = 0;
  held = [];
  waiting = [];
}
lease_of client (some ls) = ls

unfoldable pub lease_grant : Fsm → Bytes → ℕ → ℕ → Fsm × CommandResult
unfolding lease_deadline lease_of result put
lease_grant f client ttl_ms now =
    let deadline = lease_deadline now ttl_ms in
    let ls = record (lease_of client (get f.leases client)) {
      ttl_ms = ttl_ms;
      expire_at = deadline;
    } in
    (
      record f { leases = put f.leases client ls },
      record (result f lease_granted) { lease_deadline = deadline },
    )

unfoldable pub keep_alive_found : Fsm → ℕ → Option Lease → Fsm × CommandResult
unfolding lease_deadline result put
keep_alive_found f now none = (f, result f not_found)
keep_alive_found f now (some ls) =
    let deadline = lease_deadline now ls.ttl_ms in
    (
      record f { leases = put f.leases ls.client_id (record ls { expire_at = deadline }) },
      record (result f lease_renewed) { lease_deadline = deadline },
    )

unfoldable pub lease_keep_alive : Fsm → Bytes → ℕ → Fsm × CommandResult
unfolding keep_alive_found
lease_keep_alive f client now = keep_alive_found f now (get f.leases client)

-- One round of the loop over the held keys: nothing if the client no longer holds the key.
unfoldable pub release_held : Fsm → Bytes → Option Lock → Fsm
unfolding promote
release_held f client none = f
release_held f client (some lk) = ite (lk.holder ≟ client) (promote f lk) f

unfoldable pub release_all : Fsm → Bytes → List Bytes → Fsm
unfolding release_held
release_all f client [] = f
release_all f client (name ∷ names) =
    release_all (release_held f client (get f.locks name)) client names

-- One round of the loop over the keys waited for.
abbrev set_queue : Fsm → Lock → Option (List Waiter) → Fsm
set_queue f lk none = f
set_queue f lk (some queue) = record f { locks = put f.locks lk.name (record lk { queue = queue }) }

unfoldable pub dequeue : Fsm → Bytes → Option Lock → Fsm
unfolding remove_first put
dequeue f client none = f
dequeue f client (some lk) = set_queue f lk (remove_first client lk.queue)

unfoldable pub dequeue_all : Fsm → Bytes → List Bytes → Fsm
unfolding dequeue
dequeue_all f client [] = f
dequeue_all f client (name ∷ names) = dequeue_all (dequeue f client (get f.locks name)) client names

-- The lease's `waiting` as it stands after the first loop, which may have changed it.
unfoldable pub waiting_now : Fsm → Lease → List Bytes
unfolding lease_of sorted_keys
waiting_now f ls = elim (get f.leases ls.client_id) [
  | none ↦ sorted_keys ls.waiting
  | some ls' ↦ sorted_keys ls'.waiting
]

unfoldable pub drop_lease : Fsm → Lease → Fsm
unfolding release_all dequeue_all waiting_now sorted_keys
drop_lease f ls =
    let g = release_all f ls.client_id (sorted_keys ls.held) in
    let h = dequeue_all g ls.client_id (waiting_now g ls) in
    record h { leases = delete h.leases ls.client_id }

unfoldable pub revoke_found : Fsm → Option Lease → Fsm × CommandResult
unfolding drop_lease result
revoke_found f none = (f, result f not_found)
revoke_found f (some ls) = (drop_lease f ls, result f lease_revoked)

unfoldable pub lease_revoke : Fsm → Bytes → Fsm × CommandResult
unfolding revoke_found
lease_revoke f client = revoke_found f (get f.leases client)

unfoldable pub expire_found : Fsm → ℕ → Option Lease → Fsm × CommandResult
unfolding drop_lease result
expire_found f now none = (f, result f not_found)
expire_found f now (some ls) =
    if signed_ltb now ls.expire_at
    then (f, result f noop)
    else (drop_lease f ls, result f lease_expired)

unfoldable pub lease_expire : Fsm → Bytes → ℕ → Fsm × CommandResult
unfolding expire_found
lease_expire f client now = expire_found f now (get f.leases client)
