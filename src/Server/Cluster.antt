-- ===== src/Server/Cluster.antt =====
-- The cluster administration service: internal/server/cluster.go. The local node, the dispatcher and the
-- generated marshallers are parameters; the goroutines of a fan-out run in the order of the list.
use zuul.Shared.{
  ℕ, ◌+◌, Bytes, Bool, true, false, ◌||◌, ◌&&◌, Option, none, some, List, [], ◌∷◌, ◌==◌,
  if◌then◌else◌, length, ◌⊎◌, inl, inr, ◌≡◌,
}
use zuul.Auth.Authz.{Authorizer, authorize}
use zuul.Auth.Authz
use zuul.Meta.{Member, MetaCommand, put_member, delete_member}
use zuul.Consensus.{Codec}
use zuul.Server.Browse.{cluster_key}

-- MembershipChanger, with what shows its effect: whether a replica is a member of a shard.
pub record Changer (World : Type 0) : Type 0 where
  pub add_replica : World → ℕ → ℕ → Bytes → World × Bool
  pub remove_replica : World → ℕ → ℕ → World × Bool
  pub is_replica : World → ℕ → ℕ → Bool

-- What a dispatcher promises of a change that it reports as made.
pub record ChangerLaws {World : Type 0} (c : Changer World) : Type 0 where
  pub add_made :
      (w : World) (s id : ℕ) (addr : Bytes)
      → (c.add_replica w s id addr).1 ≡ true
      → c.is_replica (c.add_replica w s id addr).0 s id ≡ true
  pub add_keeps :
      (w : World) (s id : ℕ) (addr : Bytes) (j i : ℕ)
      → c.is_replica w j i ≡ true
      → c.is_replica (c.add_replica w s id addr).0 j i ≡ true

pub data ClusterError : Type 0 where
  unauthorized_cluster membership_disabled bad_request backend marshal_failed : ClusterError

pub record AddNodeRequest : Type 0 where
  pub replica_id : ℕ
  pub raft_address : Bytes
  pub zuul_grpc_address : Bytes
  pub node_host_id : Bytes

unfoldable pub may : Authorizer → Bytes → Authz.Op → Bool
may policy identity op = authorize policy identity cluster_key op

pub data MembersReply : Type 0 where
  members_are : List Member → MembersReply
  members_refused : ClusterError → MembersReply

-- The entries are copied field by field.
unfoldable pub copy_members : List Member → List Member
copy_members [] = []
copy_members (m ∷ ms) =
    record {
      replica_id = m.replica_id;
      raft_address = m.raft_address;
      zuul_grpc_address = m.zuul_grpc_address;
      node_host_id = m.node_host_id;
    }
    ∷ copy_members ms

abbrev pub listed_members : Option (List Member) → MembersReply
listed_members none = members_refused backend
listed_members (some ms) = members_are (copy_members ms)

unfoldable pub members : Authorizer → Bytes → Option (List Member) → MembersReply
unfolding may copy_members
members policy identity meta =
    if may policy identity Authz.read
    then listed_members meta
    else members_refused unauthorized_cluster

-- A shard with the replica that leads it, 0 where none is known.
abbrev pub leader_or : Option ℕ → ℕ
leader_or none = 0
leader_or (some id) = id

unfoldable pub shard_infos : (ℕ → Option ℕ) → List ℕ → List (ℕ × ℕ)
shard_infos leader [] = []
shard_infos leader (s ∷ ss) = (s, leader_or (leader s)) ∷ shard_infos leader ss

unfoldable pub shards : Authorizer → Bytes → (ℕ → Option ℕ) → List ℕ → ClusterError ⊎ List (ℕ × ℕ)
unfolding may shard_infos
shards policy identity leader hosted =
    if may policy identity Authz.read
    then inr (shard_infos leader hosted)
    else inl unauthorized_cluster

abbrev pub leads : ℕ → Option ℕ → Bool
leads me none = false
leads me (some id) = id == me

unfoldable pub leader_count : ℕ → (ℕ → Option ℕ) → List ℕ → ℕ
leader_count me leader [] = 0
leader_count me leader (s ∷ ss) =
    let rest = leader_count me leader ss in if leads me (leader s) then rest + 1 else rest

-- The number of shards, and of those that the node leads. It asks for no right.
unfoldable pub health : ℕ → (ℕ → Option ℕ) → List ℕ → ℕ × ℕ
unfolding leader_count
health me leader hosted = (length hosted, leader_count me leader hosted)

abbrev pub is_empty : Bytes → Bool
is_empty [] = true
is_empty (c ∷ cs) = false

module _ {World C R : Type 0} (c : Changer World) (enabled : Bool) (metas : Codec MetaCommand C)
    (proposer : World → ℕ → C → World × Option R) (meta_shard : ℕ) (hosted : List ℕ) where
  -- The group of goroutines: all of them run, and one error is enough for an error.
  unfoldable pub add_all : World → ℕ → Bytes → List ℕ → World × Bool
  add_all w id addr [] = (w, true)
  add_all w id addr (s ∷ ss) =
      let (w1, one) = c.add_replica w s id addr in
      let (w2, rest) = add_all w1 id addr ss in (w2, one && rest)

  unfoldable pub remove_all : World → ℕ → List ℕ → World × Bool
  remove_all w id [] = (w, true)
  remove_all w id (s ∷ ss) =
      let (w1, one) = c.remove_replica w s id in
      let (w2, rest) = remove_all w1 id ss in (w2, one && rest)

  abbrev pub recorded : World × Option R → World × Option ClusterError
  recorded (w, none) = (w, some backend)
  recorded (w, some r) = (w, none)

  abbrev pub sent : World → Option C → World × Option ClusterError
  sent w none = (w, some marshal_failed)
  sent w (some b) = recorded (proposer w meta_shard b)

  unfoldable pub put_in_meta : World → AddNodeRequest → World × Option ClusterError
  put_in_meta w r = sent w (
      metas.marshal (
        put_member (record {
          replica_id = r.replica_id;
          raft_address = r.raft_address;
          zuul_grpc_address = r.zuul_grpc_address;
          node_host_id = r.node_host_id;
        })))

  unfoldable pub delete_from_meta : World → ℕ → World × Option ClusterError
  delete_from_meta w id = sent w (metas.marshal (delete_member id))

  abbrev pub when_all :
      (World → World × Option ClusterError) → World × Bool → World × Option ClusterError
  when_all next (w, false) = (w, some backend)
  when_all next (w, true) = next w

  unfoldable pub add_node :
      Authorizer → Bytes → World → AddNodeRequest → World × Option ClusterError
  unfolding may add_all put_in_meta
  add_node policy identity w r =
      if may policy identity Authz.admin
      then if enabled
        then if r.replica_id == 0 || is_empty r.raft_address
          then (w, some bad_request)
          else when_all (λ v. put_in_meta v r) (add_all w r.replica_id r.raft_address hosted)
        else (w, some membership_disabled)
      else (w, some unauthorized_cluster)

  unfoldable pub remove_node : Authorizer → Bytes → World → ℕ → World × Option ClusterError
  unfolding may remove_all delete_from_meta
  remove_node policy identity w id =
      if may policy identity Authz.admin
      then if enabled
        then if id == 0
          then (w, some bad_request)
          else when_all (λ v. delete_from_meta v id) (remove_all w id hosted)
        else (w, some membership_disabled)
      else (w, some unauthorized_cluster)
