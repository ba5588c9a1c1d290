-- ===== src/Consensus/Sweep.antt =====
-- The expiry sweep: `ExpireDue` and the task of `RunExpiry`, internal/raft/consensus/host.go.
use zuul.Shared.{
  ℕ, Bytes, Option, none, some, List, [], ◌∷◌, ◌⊎◌, inl, inr, if◌then◌else◌, bytes_key, nat_key,
}
use zuul.Fsm.Types.{Command}
use zuul.Fsm.Queries.{due_answer, due_leases_query}
use zuul.Cmd.{expire}
use zuul.Consensus.{Codec}
use zuul.Consensus.Host.{
  NodeHost, Host, HostError, consensus, marshal, AnyAnswer, lock_answer, lock_query, propose, read,
  is_leader,
}

module _ {World C R : Type 0} (nh : NodeHost World C R) (commands : Codec Command C)
    (h : Host) where
  abbrev pub then_expire :
      (World → World × Option HostError) → World × (HostError ⊎ R) → World × Option HostError
  then_expire rest (w, inl x) = (w, some consensus)
  then_expire rest (w, inr _) = rest w

  abbrev pub expire_marshalled :
      World → ℕ → (World → World × Option HostError) → Option C → World × Option HostError
  expire_marshalled w shard rest none = (w, some marshal)
  expire_marshalled w shard rest (some c) = then_expire rest (propose nh h w shard c)

  -- The loop over the clients whose leases are due, up to the first failure.
  unfoldable pub expire_all : World → ℕ → ℕ → List Bytes → World × Option HostError
  unfolding propose
  expire_all w shard now [] = (w, none)
  expire_all w shard now (client ∷ rest) =
      expire_marshalled w shard (λ w2. expire_all w2 shard now rest)
        (commands.marshal (expire client now))

  -- `due, _ := res.([]string)`
  abbrev pub due_of : AnyAnswer → List Bytes
  due_of (lock_answer (due_answer due)) = due
  due_of _ = []

  abbrev pub expire_read : World → ℕ → ℕ → HostError ⊎ AnyAnswer → World × Option HostError
  expire_read w shard now (inl x) = (w, some consensus)
  expire_read w shard now (inr a) = expire_all w shard now (due_of a)

  unfoldable pub expire_due : World → ℕ → ℕ → World × Option HostError
  unfolding expire_all read
  expire_due w shard now =
      expire_read w shard now (read nh h w shard (lock_query (due_leases_query now)))

  -- One tick of `RunExpiry`, `now` reading the clock at a shard's turn; a failed sweep is logged.
  unfoldable pub tick : World → (ℕ → ℕ) → List ℕ → World
  unfolding expire_due is_leader
  tick w now [] = w
  tick w now (s ∷ ss) = tick (if is_leader nh h w s then (expire_due w s (now s)).0 else w) now ss
