-- ===== src/Forward/Dispatch.antt =====
-- The dispatcher: internal/raft/forward/dispatch.go.
use zuul.Shared.{ℕ, Bytes, Bool, Option, none, some, ◌⊎◌, inl, inr, if◌then◌else◌, ◌==◌}
use zuul.Forward.{Local}
use zuul.Forward.Pool.{Pool, client, evict}

-- What an attempt ends in: a result, an error that is retried, or one that wraps errStopRetry.
pub data Attempt (R : Type 0) : Type 0 where
  finished : R → Attempt R
  transient : Attempt R
  permanent : Attempt R

-- Where the leader is: this node, a peer's address, or not known yet.
pub data Route : Type 0 where
  here : Route
  peer : Bytes → Route
  unsettled : Route

-- The category that the dispatcher's error is stamped with, an internal one being marked permanent.
pub data DispatchError : Type 0 where
  internal : DispatchError
  unavailable : DispatchError

-- Whether the code of a failed call is Unavailable.
pub data CallError : Type 0 where
  peer_unavailable : CallError
  other_code : CallError

unfoldable pub classify : {R : Type 0} → Attempt R → DispatchError ⊎ R
classify (finished r) = inr r
classify transient = inl unavailable
classify permanent = inl internal

module _ {World C R Conn : Type 0} (local : Local World C R) (addr_of : World → ℕ → Option Bytes)
    (dial : Bytes → Option Conn) where
  abbrev pub addressed : Option Bytes → Route
  addressed none = unsettled
  addressed (some a) = peer a

  abbrev pub route_to : World → Option ℕ → Route
  route_to w none = unsettled
  route_to w (some leader) =
      if leader == local.replica_id then here else addressed (addr_of w leader)

  unfoldable pub route : World → ℕ → Route
  route w shard = if local.is_leader w shard then here else route_to w (local.leader_id w shard)

  -- `evictIfUnavailable`
  unfoldable pub evict_if_unavailable : Pool Conn → Bytes → CallError → Pool Conn
  unfolding evict
  evict_if_unavailable p addr peer_unavailable = evict p addr
  evict_if_unavailable p addr other_code = p

  -- The state of the world and of the pool.
  abbrev pub State : Type 0
  State = World × Pool Conn

  abbrev pub ran_here : {A : Type 0} → Pool Conn → World × Option A → State × Attempt A
  ran_here p (w, none) = ((w, p), transient)
  ran_here p (w, some r) = ((w, p), finished r)

  abbrev pub called : {A : Type 0} → Pool Conn → Bytes → World × (CallError ⊎ A) → State × Attempt A
  called p addr (w, inl x) = ((w, evict_if_unavailable p addr x), transient)
  called p addr (w, inr r) = ((w, p), finished r)

  abbrev pub reached :
      {A : Type 0}
      → World
      → (Conn → World × (CallError ⊎ A))
      → Bytes
      → Pool Conn × Option Conn
      → State × Attempt A
  reached w call addr (p, none) = ((w, p), permanent)
  reached w call addr (p, some cc) = called p addr (call cc)

  abbrev pub sent :
      {A : Type 0}
      → World
      → Pool Conn
      → (World × Option A)
      → (Conn → World × (CallError ⊎ A))
      → Route
      → State × Attempt A
  sent w p own call here = ran_here p own
  sent w p own call (peer addr) = reached w call addr (client dial p addr)
  sent w p own call unsettled = ((w, p), transient)

  -- One run of the closure that `Propose` hands to `retry`; `call` is the peer's Propose.
  unfoldable pub propose_once :
      (World → Conn → ℕ → C → World × (CallError ⊎ R)) → ℕ → C → State → State × Attempt R
  unfolding route client evict_if_unavailable
  propose_once call shard c (w, p) =
      sent w p (local.propose w shard c) (λ cc. call w cc shard c) (route w shard)

  abbrev pub acknowledged : World × Bool → World × Option (Unit {0})
  acknowledged (w, ok) = (w, if ok then some tt else none)

  unfoldable pub add_once :
      (World → Conn → ℕ → ℕ → Bytes → World × (CallError ⊎ Unit {0}))
      → ℕ
      → ℕ
      → Bytes
      → State
      → State × Attempt (Unit {0})
  unfolding route client evict_if_unavailable
  add_once call shard id addr (w, p) =
      sent w p (acknowledged (local.add_replica_shard w shard id addr))
        (λ cc. call w cc shard id addr) (route w shard)

  unfoldable pub remove_once :
      (World → Conn → ℕ → ℕ → World × (CallError ⊎ Unit {0}))
      → ℕ
      → ℕ
      → State
      → State × Attempt (Unit {0})
  unfolding route client evict_if_unavailable
  remove_once call shard id (w, p) =
      sent w p (acknowledged (local.remove_replica_shard w shard id)) (λ cc. call w cc shard id)
        (route w shard)

  -- `Propose`, `AddReplica` and `RemoveReplica`: the attempt made over by the backoff, `retry`, and classified.
  abbrev pub Retry : Type 0 → Type 0
  Retry A = (State → State × Attempt A) → State → State × Attempt A

  abbrev pub dispatched : {A : Type 0} → State × Attempt A → State × (DispatchError ⊎ A)
  dispatched (s, a) = (s, classify a)

  unfoldable pub propose :
      Retry R
      → (World → Conn → ℕ → C → World × (CallError ⊎ R))
      → State
      → ℕ
      → C
      → State × (DispatchError ⊎ R)
  unfolding propose_once classify
  propose retry call s shard c = dispatched (retry (propose_once call shard c) s)

  unfoldable pub add_replica :
      Retry (Unit {0})
      → (World → Conn → ℕ → ℕ → Bytes → World × (CallError ⊎ Unit {0}))
      → State
      → ℕ
      → ℕ
      → Bytes
      → State × (DispatchError ⊎ Unit {0})
  unfolding add_once classify
  add_replica retry call s shard id addr = dispatched (retry (add_once call shard id addr) s)

  unfoldable pub remove_replica :
      Retry (Unit {0})
      → (World → Conn → ℕ → ℕ → World × (CallError ⊎ Unit {0}))
      → State
      → ℕ
      → ℕ
      → State × (DispatchError ⊎ Unit {0})
  unfolding remove_once classify
  remove_replica retry call s shard id = dispatched (retry (remove_once call shard id) s)
