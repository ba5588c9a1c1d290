-- ===== src/Meta.antt =====
-- The meta shard's state machine: internal/raft/meta/store.go, with the messages of
-- internal/raft/meta/metapb/meta.proto.
pub mod RoundTrip
use zuul.Shared.{
  ℕ, Bytes, Option, none, some, List, [], ◌∷◌, map, inc64, nat_key, bytes_key, u64_mod,
}
use zuul.GoMap.{GoMap, get, put, delete, sorted_keys}
use zuul.GoMap.Copy.{save_all, load_all}

pub record Member : Type 0 where
  pub replica_id : ℕ
  pub raft_address : Bytes
  pub zuul_grpc_address : Bytes
  pub node_host_id : Bytes

pub record Store : Type 0 where
  pub members : GoMap ℕ Member
  pub revision : ℕ

unfoldable pub new_store : Store
new_store = record { members = []; revision = 0 }

-- The cases of the oneof that are set.
pub data MetaCommand : Type 0 where
  put_member : Member → MetaCommand
  delete_member : ℕ → MetaCommand

pub data MetaError : Type 0 where
  nil_command : MetaError
  unknown_command : MetaError
  unknown_query : MetaError

unfoldable pub clone_member : Member → Member
clone_member m = record {
  replica_id = m.replica_id;
  raft_address = m.raft_address;
  zuul_grpc_address = m.zuul_grpc_address;
  node_host_id = m.node_host_id;
}

pub data MetaResult : Type 0 where
  at_revision : ℕ → MetaResult
  failed : MetaError → MetaResult

-- The command is nil, a command whose oneof is unset, or a command.
pub data Received : Type 0 where
  nil : Received
  unset : Received
  command : MetaCommand → Received

-- The switch of `Apply`, on the store whose revision is already stepped.
unfoldable pub change : Store → MetaCommand → Store
unfolding clone_member
change s (put_member m) = record s { members = put s.members m.replica_id (clone_member m) }
change s (delete_member id) = record s { members = delete s.members id }

abbrev stepped : Store → Store
stepped s = record s { revision = inc64 s.revision }

unfoldable pub apply : Store → Received → Store × MetaResult
unfolding change
apply s nil = (s, failed nil_command)
apply s unset = (stepped s, failed unknown_command)
apply s (command c) = (change (stepped s) c, at_revision (inc64 s.revision))

abbrev cloned : ℕ → Member → Member
unfolding clone_member
cloned id m = clone_member m

unfoldable pub list : Store → List Member
unfolding save_all sorted_keys clone_member
list s = save_all cloned s.members (sorted_keys s.members)

pub data MetaQuery : Type 0 where
  member_query : ℕ → MetaQuery
  list_query : MetaQuery
  other_query : MetaQuery

pub data MetaAnswer : Type 0 where
  a_member : Option Member → MetaAnswer
  every_member : List Member → MetaAnswer
  refused : MetaError → MetaAnswer

abbrev answered : Option Member → Option Member
unfolding clone_member
answered none = none
answered (some m) = some (clone_member m)

unfoldable pub query : Store → MetaQuery → MetaAnswer
unfolding list
query s (member_query id) = a_member (answered (get s.members id))
query s list_query = every_member (list s)
query s other_query = refused unknown_query

pub record MetaSnapshot : Type 0 where
  pub saved_revision : ℕ
  pub saved_members : List Member

unfoldable pub snapshot : Store → MetaSnapshot
unfolding list
snapshot s = record { saved_revision = s.revision; saved_members = list s }

unfoldable pub restore : Store → MetaSnapshot → Store
unfolding load_all clone_member
restore s snap = record s {
  revision = snap.saved_revision;
  members = load_all (λ (m : Member). m.replica_id) clone_member [] snap.saved_members;
}

-- A log applied in order; the results are what the adapter records.
unfoldable pub run : Store → List MetaCommand → Store
unfolding apply
run s [] = s
run s (c ∷ cs) = run (apply s (command c)).0 cs
