-- ===== src/Forward/Serve.antt =====
-- The Forwarder service that the peers call: internal/raft/forward/server.go.
use zuul.Shared.{ℕ, Bytes, Bool, Option, none, some, List, ◌⊎◌, inl, inr, if◌then◌else◌, not}
use zuul.Watch.{Hub, Observation, observers}
use zuul.Forward.{Local}

-- Both errors are FailedPrecondition.
pub data Refusal : Type 0 where
  not_leader : Refusal
  consensus : Refusal

module _ {World C R : Type 0} (local : Local World C R) where
  abbrev pub answered : World × Option R → World × (Refusal ⊎ R)
  answered (w, none) = (w, inl consensus)
  answered (w, some r) = (w, inr r)

  unfoldable pub propose : World → ℕ → C → World × (Refusal ⊎ R)
  propose w shard c =
      if not (local.is_leader w shard)
      then (w, inl not_leader)
      else answered (local.propose w shard c)

  abbrev pub confirmed : World × Bool → World × (Refusal ⊎ Unit {0})
  confirmed (w, ok) = (w, if ok then inr tt else inl consensus)

  unfoldable pub add_replica : World → ℕ → ℕ → Bytes → World × (Refusal ⊎ Unit {0})
  add_replica w shard id addr =
      if not (local.is_leader w shard)
      then (w, inl not_leader)
      else confirmed (local.add_replica_shard w shard id addr)

  unfoldable pub remove_replica : World → ℕ → ℕ → World × (Refusal ⊎ Unit {0})
  remove_replica w shard id =
      if not (local.is_leader w shard)
      then (w, inl not_leader)
      else confirmed (local.remove_replica_shard w shard id)

  -- The observers of the node's hub, under the replica's id.
  unfoldable pub list_observers : (Bytes → ℕ) → Hub → Bytes → ℕ × List Observation
  list_observers hash hub key = (local.replica_id, observers hash hub key)
