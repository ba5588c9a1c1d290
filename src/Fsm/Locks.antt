-- ===== src/Fsm/Locks.antt =====
-- internal/raft/fsm/locks.go: the operations on locks and elections. A lock or lease that the source
-- changes through its pointer is written back under the name that it carries.
use zuul.Shared.{
  ℕ, ◌+◌, Bytes, Bool, Option, none, some, List, [], ◌∷◌, ◌++◌, ite, if◌then◌else◌, ◌≟◌, inc64, u32,
  length, bytes_key, ◌==◌,
}
use mathlib.Core.Option
use zuul.GoMap.{GoMap, get, put, delete, has}
use zuul.Fsm.Types.{
  Fsm, Lock, Lease, Waiter, CommandResult, result_key, emit, granted, queued, not_acquired,
  released, not_holder, stale_token, no_lease, value_updated, noop,
}

abbrev add_key : GoMap Bytes (Unit {0}) → Bytes → GoMap Bytes (Unit {0})
add_key s k = put s k tt

-- queuePos's loop: `i` waiters were passed.
queue_pos_from : ℕ → List Waiter → Bytes → ℕ
queue_pos_from i [] client = 0
queue_pos_from i (w ∷ ws) client =
    ite (w.client_id ≟ client) (u32 (i + 1)) (queue_pos_from (i + 1) ws client)

unfoldable pub queue_pos : Lock → Bytes → ℕ
unfolding queue_pos_from
queue_pos lk client = queue_pos_from 0 lk.queue client

-- lk := f.locks[name], or a new entry.
unfoldable pub entry_of : Bytes → Option Lock → Lock
entry_of name none = record { name = name; holder = []; token = 0; value = none; queue = [] }
entry_of name (some lk) = lk

unfoldable pub grant : Fsm → Bytes → Lease → Option Bytes → Fsm × CommandResult
unfolding entry_of result_key emit put
grant f name ls value =
    let seq = inc64 f.seq in
    let lk = record (entry_of name (get f.locks name)) {
      holder = ls.client_id;
      token = seq;
      value = value;
    } in
    let ls' = record ls { held = add_key ls.held name; waiting = delete ls.waiting name } in
    let g = record f {
      seq = seq;
      locks = put f.locks name lk;
      leases = put f.leases ls.client_id ls';
    } in
    (
      emit g name ls.client_id seq value,
      record (result_key f granted name) { fencing_token = seq; value = value },
    )

-- The key is held by another client, and the caller will wait.
unfoldable pub enqueue : Fsm → Bytes → Bytes → Option Bytes → Lease → Lock → Fsm × CommandResult
unfolding queue_pos result_key put
enqueue f name client value ls lk =
    if has ls.waiting name
    then (f, record (result_key f queued name) { queue_position = queue_pos lk client })
    else let seq = inc64 f.seq in
      let queue = lk.queue ++ (record { client_id = client; seq = seq; value = value } ∷ []) in
      (
        record f {
          seq = seq;
          locks = put f.locks lk.name (record lk { queue = queue });
          leases = put f.leases ls.client_id (record ls { waiting = add_key ls.waiting name });
        },
        record (result_key f queued name) { queue_position = u32 (length queue) },
      )

-- The caller has a lease; `lk` is what the map holds under the name.
unfoldable pub acquire_leased :
    Fsm → Bytes → Bytes → Option Bytes → Bool → Lease → Option Lock → Fsm × CommandResult
unfolding grant enqueue result_key
acquire_leased f name client value try ls none = grant f name ls value
acquire_leased f name client value try ls (some lk) = ite (lk.holder ≟ []) (grant f name ls value) (
    ite (lk.holder ≟ client)
      (f, record (result_key f granted name) { fencing_token = lk.token; value = lk.value })
      (if try
        then (f, record (result_key f not_acquired name) { current_holder = lk.holder })
        else enqueue f name client value ls lk))

acquire_found : Fsm → Bytes → Bytes → Option Bytes → Bool → Option Lease → Fsm × CommandResult
unfolding acquire_leased
acquire_found f name client value try none = (f, result_key f no_lease name)
acquire_found f name client value try (some ls) =
    acquire_leased f name client value try ls (get f.locks name)

unfoldable pub acquire : Fsm → Bytes → Bytes → Option Bytes → Bool → Fsm × CommandResult
unfolding acquire_found
acquire f name client value try = acquire_found f name client value try (get f.leases client)

-- One waiter takes the key over.
unfoldable pub promote_to : Fsm → Lock → Waiter → List Waiter → Lease → Fsm
unfolding emit put
promote_to f lk w queue ls =
    let seq = inc64 f.seq in
    let g = record f {
      seq = seq;
      locks =
          put f.locks lk.name
            (record lk { holder = w.client_id; token = seq; value = w.value; queue = queue });
      leases =
          put f.leases ls.client_id
            (record ls { held = add_key ls.held lk.name; waiting = delete ls.waiting lk.name });
    } in
    emit g lk.name w.client_id seq w.value

-- The head of the queue is taken off; a waiter with no lease is skipped (`rest`).
abbrev promote_head : Fsm → Lock → Waiter → List Waiter → Fsm → Option Lease → Fsm
promote_head f lk w queue rest none = rest
promote_head f lk w queue rest (some ls) = promote_to f lk w queue ls

-- The loop over the queue.
unfoldable pub promote_loop : Fsm → Lock → List Waiter → Fsm
unfolding emit
promote_loop f lk [] = emit (record f { locks = delete f.locks lk.name }) lk.name [] 0 none
promote_loop f lk (w ∷ queue) =
    promote_head f lk w queue (promote_loop f lk queue) (get f.leases w.client_id)

unfoldable pub promote : Fsm → Lock → Fsm
unfolding promote_loop
promote f lk = promote_loop f lk lk.queue

-- The checks that Unlock, Resign and Proclaim share: none if the caller holds the key under the token.
unfoldable pub refusal : Fsm → Bytes → Bytes → ℕ → Option Lock → Option CommandResult
unfolding result_key
refusal f name client token none = some (result_key f not_holder name)
refusal f name client token (some lk) = ite (lk.holder ≟ []) (some (result_key f not_holder name)) (
    ite (lk.holder ≟ client)
      (if lk.token == token then none else some (result_key f stale_token name))
      (some (result_key f not_holder name)))

-- if ls := f.leases[clientID]; ls != nil { delete(ls.held, name) }
unfoldable pub forget_held : Fsm → Bytes → Option Lease → Fsm
unfolding put
forget_held f name none = f
forget_held f name (some ls) = record f {
  leases = put f.leases ls.client_id (record ls { held = delete ls.held name });
}

release_checked : Fsm → Bytes → Bytes → Option Lock → Option CommandResult → Fsm × CommandResult
unfolding promote forget_held result_key
release_checked f name client lk (some r) = (f, r)
release_checked f name client none none = (f, result_key f not_holder name)
release_checked f name client (some lk) none =
    (promote (forget_held f name (get f.leases client)) lk, result_key f released name)

unfoldable pub release : Fsm → Bytes → Bytes → ℕ → Fsm × CommandResult
unfolding release_checked refusal
release f name client token =
    let lk = get f.locks name in release_checked f name client lk (refusal f name client token lk)

-- The queue without the client's first waiter; none if the client is not queued.
unfoldable pub remove_first : Bytes → List Waiter → Option (List Waiter)
remove_first client [] = none
remove_first client (w ∷ ws) =
    ite (w.client_id ≟ client) (some ws) (Option.map (λ r. w ∷ r) (remove_first client ws))

unfoldable pub forget_waiting : Fsm → Bytes → Option Lease → Fsm
unfolding put
forget_waiting f name none = f
forget_waiting f name (some ls) = record f {
  leases = put f.leases ls.client_id (record ls { waiting = delete ls.waiting name });
}

cancel_queued : Fsm → Bytes → Bytes → Lock → Option (List Waiter) → Fsm × CommandResult
unfolding forget_waiting result_key put
cancel_queued f name client lk none = (f, result_key f noop name)
cancel_queued f name client lk (some queue) = (
  forget_waiting (record f { locks = put f.locks lk.name (record lk { queue = queue }) }) name
      (get f.leases client),
  result_key f released name,
)

cancel_found : Fsm → Bytes → Bytes → Option Lock → Fsm × CommandResult
unfolding cancel_queued remove_first result_key
cancel_found f name client none = (f, result_key f noop name)
cancel_found f name client (some lk) = cancel_queued f name client lk (remove_first client lk.queue)

unfoldable pub cancel_wait : Fsm → Bytes → Bytes → Fsm × CommandResult
unfolding cancel_found
cancel_wait f name client = cancel_found f name client (get f.locks name)

proclaim_checked :
    Fsm → Bytes → Option Bytes → Option Lock → Option CommandResult → Fsm × CommandResult
unfolding emit result_key put
proclaim_checked f name value lk (some r) = (f, r)
proclaim_checked f name value none none = (f, result_key f not_holder name)
proclaim_checked f name value (some lk) none = (
  emit (record f { locks = put f.locks lk.name (record lk { value = value }) }) name lk.holder
      lk.token value,
  record (result_key f value_updated name) { fencing_token = lk.token; value = value },
)

unfoldable pub proclaim : Fsm → Bytes → Bytes → ℕ → Option Bytes → Fsm × CommandResult
unfolding proclaim_checked refusal
proclaim f name client token value =
    let lk = get f.locks name in proclaim_checked f name value lk (refusal f name client token lk)
