-- ===== src/Consensus/Settings.antt =====
-- The configuration of a Raft host: `Config`, its check and what `New` derives from it,
-- internal/raft/consensus/host.go.
use zuul.Shared.{
  ℕ, Bytes, Bool, true, false, not, ◌&&◌, ◌||◌, Option, none, some, List, [], ◌∷◌, ◌++◌, ◌==◌,
  if◌then◌else◌, nat_key, ◌≡◌, arith,
}
use zuul.GoMap.{GoMap, has, contains}

pub record Config : Type 0 where
  pub replica_id : ℕ
  pub raft_addr : Bytes
  pub grpc_addr : Bytes
  pub data_dir : Bytes
  pub shards : List ℕ
  pub meta_shard_id : ℕ
  pub members : GoMap ℕ Bytes
  pub join : Bool
  pub mutual_tls : Bool
  pub ca_file : Bytes
  pub cert_file : Bytes
  pub key_file : Bytes
  pub gossip : Bool
  pub node_host_id : ℕ
  pub gossip_bind : Bytes
  pub gossip_seeds : List Bytes
  pub snapshot_entries : ℕ
  pub compaction_overhead : ℕ

pub data SettingsError : Type 0 where
  no_replica_id no_raft_addr no_grpc_addr no_data_dir no_shards meta_collides : SettingsError
  tls_files_missing no_node_host_id no_gossip_bind no_gossip_seeds : SettingsError
  no_members self_not_member : SettingsError

abbrev unset : {A : Type 0} → List A → Bool
unset [] = true
unset (x ∷ xs) = false

-- The loop over the lock shards.
unfoldable pub collides : ℕ → List ℕ → Bool
collides meta [] = false
collides meta (s ∷ ss) =
    let rest = collides meta ss in if not (meta == 0) && s == meta then true else rest

abbrev check_members : Config → Option SettingsError
check_members c =
    if c.join
    then none
    else if unset c.members
    then some no_members
    else if not (has c.members c.replica_id)
    then some self_not_member
    else none

abbrev check_gossip : Config → Option SettingsError
check_gossip c =
    if c.gossip
    then if c.node_host_id == 0
      then some no_node_host_id
      else if unset c.gossip_bind
      then some no_gossip_bind
      else if unset c.gossip_seeds
      then some no_gossip_seeds
      else check_members c
    else check_members c

-- none for a valid configuration
unfoldable pub validate : Config → Option SettingsError
unfolding collides
validate c =
    if c.replica_id == 0
    then some no_replica_id
    else if unset c.raft_addr
    then some no_raft_addr
    else if unset c.grpc_addr
    then some no_grpc_addr
    else if unset c.data_dir
    then some no_data_dir
    else if unset c.shards
    then some no_shards
    else if collides c.meta_shard_id c.shards
    then some meta_collides
    else if c.mutual_tls && (unset c.ca_file || (unset c.cert_file || unset c.key_file))
    then some tls_files_missing
    else check_gossip c

-- The shards that `New` starts, the members it starts them with, and the two sizes.
unfoldable pub hosted_of : Config → List ℕ
hosted_of c = if c.meta_shard_id == 0 then c.shards else c.shards ++ (c.meta_shard_id ∷ [])

unfoldable pub initial_members : Config → GoMap ℕ Bytes
initial_members c = if c.join then [] else c.members

unfoldable pub snapshot_entries_of : Config → ℕ
snapshot_entries_of c = if c.snapshot_entries == 0 then 1000 else c.snapshot_entries

unfoldable pub compaction_of : Config → ℕ
compaction_of c = if c.compaction_overhead == 0 then 100 else c.compaction_overhead

collides-contains :
    (meta : ℕ) (ss : List ℕ) → collides meta ss ≡ false → contains ss meta ≡ true → meta ≡ 0
unfolding collides
collides-contains meta [] h k = ground (arith, k)
collides-contains meta (s ∷ ss) h k = ground (arith, h, k, collides-contains meta ss)

-- In a configuration that the check accepts, the meta shard is none of the lock shards; and a node that does not
-- join starts its shards with itself among the members.
pub validate-apart :
    (c : Config)
    → validate c ≡ none
    → ((contains c.shards c.meta_shard_id && not (c.meta_shard_id == 0)) ≡ false)
      × ((c.join || has (initial_members c) c.replica_id) ≡ true)
unfolding validate initial_members
validate-apart c e =
    (ground (arith, e, collides-contains c.meta_shard_id c.shards), ground (arith, e))
