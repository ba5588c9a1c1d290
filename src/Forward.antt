-- ===== src/Forward.antt =====
-- Writes on their way to a shard's leader: internal/raft/forward, with the resolver of
-- internal/cluster/topology/topology.go. The gRPC library (connections and calls) and the backoff are
-- parameters.
pub mod Pool
pub mod Dispatch
pub mod Serve
pub mod Leader
pub mod Closing
use zuul.Shared.{ℕ, Bytes, Option, ◌⊎◌, Bool, none, some, List, [], ◌∷◌, nat_key}
use zuul.GoMap.{GoMap, get}

-- The Local interface. What it returns on an error does not matter to its callers.
pub record Local (World C R : Type 0) : Type 0 where
  pub replica_id : ℕ
  pub is_leader : World → ℕ → Bool
  pub leader_id : World → ℕ → Option ℕ
  pub propose : World → ℕ → C → World × Option R
  pub add_replica_shard : World → ℕ → ℕ → Bytes → World × Bool
  pub remove_replica_shard : World → ℕ → ℕ → World × Bool

-- topology.NewStatic, an error on an empty table, and `Addr`.
unfoldable pub new_static : GoMap ℕ Bytes → Option (GoMap ℕ Bytes)
new_static [] = none
new_static (a ∷ rest) = some (a ∷ rest)

unfoldable pub static_addr : GoMap ℕ Bytes → ℕ → Option Bytes
static_addr addrs id = get addrs id
