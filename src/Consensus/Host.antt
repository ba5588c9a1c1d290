-- ===== src/Consensus/Host.antt =====
-- The Raft host of a node: `Host` of internal/raft/consensus/host.go. The NodeHost of the Raft library, the
-- generated marshallers and the forward dispatcher are parameters; a reading of the clock is an argument.
use zuul.Shared.{
  ℕ, Bytes, Bool, true, false, not, ◌||◌, Option, none, some, List, [], ◌∷◌, ◌==◌, ◌⊎◌, inl, inr,
  if◌then◌else◌, bytes_key, nat_key,
}
use zuul.GoMap.{GoMap, has, keys}
use zuul.Fsm.Queries.{Query, Answer}
use zuul.Meta.{
  Member, MetaCommand, put_member, MetaQuery, member_query, list_query, MetaAnswer, a_member,
  every_member,
}
use zuul.Consensus.{Codec}

-- What `any` holds in a read: a query of the lock shards or of the meta shard, and its answer.
pub data AnyQuery : Type 0 where
  lock_query : Query → AnyQuery
  topology_query : MetaQuery → AnyQuery

pub data AnyAnswer : Type 0 where
  lock_answer : Answer → AnyAnswer
  topology_answer : MetaAnswer → AnyAnswer

-- The NodeHost's methods that the source calls, on the state of the whole cluster; none is an error, and
-- a leader that is not known is `some none`.
pub record NodeHost (World C R : Type 0) : Type 0 where
  pub get_leader_id : World → ℕ → Option (Option ℕ)
  pub sync_propose : World → ℕ → C → World × Option R
  pub sync_read : World → ℕ → AnyQuery → Option AnyAnswer
  pub stale_read : World → ℕ → AnyQuery → Option AnyAnswer
  pub sync_get_membership : World → ℕ → Option (GoMap ℕ Bytes)
  pub sync_request_add_node : World → ℕ → ℕ → Bytes → World × Bool
  pub sync_request_delete_node : World → ℕ → ℕ → World × Bool
  pub request_leader_transfer : World → ℕ → ℕ → World

pub record Host : Type 0 where
  pub sessions : GoMap ℕ (Unit {0})
  pub shards : List ℕ
  pub hosted : List ℕ
  pub meta_shard_id : ℕ
  pub replica_id : ℕ
  pub raft_addr : Bytes
  pub grpc_addr : Bytes
  pub node_host_id : Bytes

-- The type of the error that the source stamps, and the category it goes with.
pub data HostError : Type 0 where
  bad_request : HostError
  consensus : HostError
  marshal : HostError

module _ {World C R : Type 0} (nh : NodeHost World C R) (h : Host) where
  abbrev pub leader_known : Option (Option ℕ) → Bool
  leader_known (some (some _)) = true
  leader_known _ = false

  unfoldable pub all_have_leader : World → List ℕ → Bool
  all_have_leader w [] = true
  all_have_leader w (s ∷ ss) =
      let rest = all_have_leader w ss in if leader_known (nh.get_leader_id w s) then rest else false

  unfoldable pub ready : World → Bool
  unfolding all_have_leader
  ready w = all_have_leader w h.hosted

  -- `waitReady`: the polls' worlds in turn, until the deadline.
  unfoldable pub wait_ready : List World → Bool
  unfolding ready
  wait_ready [] = false
  wait_ready (w ∷ ws) = let rest = wait_ready ws in if ready w then true else rest

  abbrev pub proposed : World × Option R → World × (HostError ⊎ R)
  proposed (w, none) = (w, inl consensus)
  proposed (w, some r) = (w, inr r)

  unfoldable pub propose : World → ℕ → C → World × (HostError ⊎ R)
  propose w shard c =
      if has h.sessions shard then proposed (nh.sync_propose w shard c) else (w, inl bad_request)

  unfoldable pub read : World → ℕ → AnyQuery → HostError ⊎ AnyAnswer
  read w shard q = elim (nh.sync_read w shard q) [ none ↦ inl consensus | some a ↦ inr a ]

  unfoldable pub stale_read : World → ℕ → AnyQuery → Option AnyAnswer
  stale_read w shard q = nh.stale_read w shard q

  abbrev pub same_leader : ℕ → Option (Option ℕ) → Bool
  same_leader me (some (some leader)) = leader == me
  same_leader me _ = false

  unfoldable pub is_leader : World → ℕ → Bool
  is_leader w shard = same_leader h.replica_id (nh.get_leader_id w shard)

  unfoldable pub leader_id : World → ℕ → Option ℕ
  leader_id w shard = elim (nh.get_leader_id w shard) [ none ↦ none | some leader ↦ leader ]

  unfoldable pub self : Member
  self = record {
    replica_id = h.replica_id;
    raft_address = h.raft_addr;
    zuul_grpc_address = h.grpc_addr;
    node_host_id = h.node_host_id;
  }

  module _ (metas : Codec MetaCommand C) (proposer : World → ℕ → C → World × Option R) where
    abbrev pub written : World × Option R → World × Option HostError
    written (w, none) = (w, some consensus)
    written (w, some _) = (w, none)

    abbrev pub write_marshalled : World → Option C → World × Option HostError
    write_marshalled w none = (w, some marshal)
    write_marshalled w (some c) = written (proposer w h.meta_shard_id c)

    unfoldable pub write_self : World → World × Option HostError
    unfolding self
    write_self w =
        if h.meta_shard_id == 0
        then (w, none)
        else write_marshalled w (metas.marshal (put_member self))

  abbrev pub changed : World × Bool → World × Option HostError
  changed (w, ok) = (w, if ok then none else some consensus)

  abbrev pub add_unless : World → ℕ → ℕ → Bytes → Option (GoMap ℕ Bytes) → World × Option HostError
  add_unless w shard id addr none = changed (nh.sync_request_add_node w shard id addr)
  add_unless w shard id addr (some nodes) =
      if has nodes id then (w, none) else changed (nh.sync_request_add_node w shard id addr)

  unfoldable pub add_replica_shard : World → ℕ → ℕ → Bytes → World × Option HostError
  add_replica_shard w shard id addr = add_unless w shard id addr (nh.sync_get_membership w shard)

  abbrev pub remove_if : World → ℕ → ℕ → Option (GoMap ℕ Bytes) → World × Option HostError
  remove_if w shard id none = changed (nh.sync_request_delete_node w shard id)
  remove_if w shard id (some nodes) =
      if not (has nodes id) then (w, none) else changed (nh.sync_request_delete_node w shard id)

  unfoldable pub remove_replica_shard : World → ℕ → ℕ → World × Option HostError
  remove_replica_shard w shard id = remove_if w shard id (nh.sync_get_membership w shard)

  -- The first of the members, in the map's order, that is another one; 0 if none is.
  unfoldable pub another : List ℕ → ℕ
  another [] = 0
  another (id ∷ ids) = let rest = another ids in if not (id == h.replica_id) then id else rest

  unfoldable pub transfer_target : World → ℕ → ℕ
  unfolding another
  transfer_target w shard = elim (nh.sync_get_membership w shard) [
    | none ↦ 0
    | some nodes ↦ another (keys nodes)
  ]

  -- The loop of `Drain`: the shards for which a transfer was requested, and what the requests leave.
  unfoldable pub drain_requests : World → List ℕ → World × List ℕ
  unfolding is_leader transfer_target
  drain_requests w [] = (w, [])
  drain_requests w (s ∷ ss) =
      let target = transfer_target w s in
      let skipped = not (is_leader w s) || target == 0 in
      let (w2, rest) =
        drain_requests (if skipped then w else nh.request_leader_transfer w s target) ss in
      (w2, if skipped then rest else s ∷ rest)

  unfoldable pub leads_any_of : World → List ℕ → Bool
  unfolding is_leader
  leads_any_of w [] = false
  leads_any_of w (s ∷ ss) = let rest = leads_any_of w ss in if is_leader w s then true else rest

  -- `MetaMember`: none also where the answer is of another type.
  abbrev pub member_of : Option AnyAnswer → Option Member
  member_of (some (topology_answer (a_member m))) = m
  member_of _ = none

  unfoldable pub meta_member : World → ℕ → Option Member
  unfolding stale_read
  meta_member w id =
      if h.meta_shard_id == 0
      then none
      else member_of (stale_read w h.meta_shard_id (topology_query (member_query id)))

  abbrev pub members_of : HostError ⊎ AnyAnswer → HostError ⊎ List Member
  members_of (inl x) = inl consensus
  members_of (inr (topology_answer (every_member ms))) = inr ms
  members_of (inr _) = inr []

  unfoldable pub meta_list : World → HostError ⊎ List Member
  unfolding read
  meta_list w =
      if h.meta_shard_id == 0
      then inr []
      else members_of (read w h.meta_shard_id (topology_query list_query))
