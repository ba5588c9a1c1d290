-- ===== src/Server/Browse.antt =====
-- The read-only Browse service: internal/server/browse.go, with the aggregation of the observers in
-- internal/server/observers.go. The router, the reader and the peers are parameters; the goroutines of a
-- fan-out run in the order of the list.
use zuul.Shared.{
  ℕ, Bytes, codes, Bool, true, false, Option, none, some, List, [], ◌∷◌, ◌++◌, map, ite, ◌≟◌, ◌==◌,
  ◌||◌, if◌then◌else◌, is_some, length, u32, bytes_key, bytes_lt,
}
use zuul.GoMap.{GoMap, put, sorted_keys}
use zuul.Auth.Keypath.{owner}
use zuul.Auth.Authz.{Authorizer, authorize}
use zuul.Auth.Authz
use zuul.Fsm.Queries.{LockSummary, LockSummaries, Waiters, WaiterInfo}
use zuul.Meta.{Member}
use zuul.Watch.{Observation}
use zuul.Server.{ServerError, unauthorized_key, backend, require_key_path, authorized}

abbrev pub cluster_key : Bytes
cluster_key = codes "cluster/"

pub data RecordKind : Type 0 where
  lock_kind election_kind : RecordKind

unfoldable pub kind_of : Bool → RecordKind
kind_of true = election_kind
kind_of false = lock_kind

pub record Record : Type 0 where
  pub key : Bytes
  pub kind : RecordKind
  pub held : Bool
  pub holder_client_id : Bytes
  pub fencing_token : ℕ
  pub queue_depth : ℕ
  pub revision : ℕ

unfoldable pub summary_to_record : LockSummary → Record
unfolding kind_of
summary_to_record s = record {
  key = s.name;
  kind = kind_of s.has_value;
  held = s.held;
  holder_client_id = s.holder;
  fencing_token = s.token;
  queue_depth = s.queue_depth;
  revision = 0;
}

pub data ListReply : Type 0 where
  records : List Record → List Bytes → ListReply
  list_refused : ServerError → ListReply

-- slices.SortFunc by `cmpString` on the names.
unfoldable pub insert_summary : LockSummary → List LockSummary → List LockSummary
insert_summary s [] = s ∷ []
insert_summary s (t ∷ ts) =
    let rest = insert_summary s ts in if bytes_lt t.name s.name then t ∷ rest else s ∷ t ∷ ts

unfoldable pub sort_summaries : List LockSummary → List LockSummary
unfolding insert_summary
sort_summaries [] = []
sort_summaries (s ∷ ss) = insert_summary s (sort_summaries ss)

-- seenNS, whose keys are the namespaces.
abbrev see : Option Bytes → GoMap Bytes (Unit {0}) → GoMap Bytes (Unit {0})
see none seen = seen
see (some user) seen = put seen user tt

unfoldable pub seen_namespaces : List LockSummary → GoMap Bytes (Unit {0}) → GoMap Bytes (Unit {0})
seen_namespaces [] seen = seen
seen_namespaces (s ∷ ss) seen = seen_namespaces ss (see (owner s.name) seen)

abbrev pub gathered : Option LockSummaries → Option (List LockSummary) → Option (List LockSummary)
gathered none rest = none
gathered (some ls) none = none
gathered (some ls) (some rest) = some (ls.locks ++ rest)

-- The fan-out over the shards; none if one of the reads fails.
unfoldable pub gather :
    (ℕ → Bytes → Option LockSummaries) → Bytes → List ℕ → Option (List LockSummary)
gather stale_read prefix [] = some []
gather stale_read prefix (s ∷ ss) = gathered (stale_read s prefix) (gather stale_read prefix ss)

abbrev pub listed : Option (List LockSummary) → ListReply
listed none = list_refused backend
listed (some ss) =
    let sorted = sort_summaries ss in
    records (map summary_to_record sorted) (sorted_keys (seen_namespaces sorted []))

-- The key under which browsing a prefix is authorized.
unfoldable pub auth_key : Bytes → Bytes
auth_key prefix = ite (prefix ≟ []) cluster_key prefix

unfoldable pub list_records :
    Authorizer → (ℕ → Bytes → Option LockSummaries) → List ℕ → Bytes → Bytes → ListReply
unfolding authorize auth_key gather
list_records policy stale_read shards identity prefix =
    if authorize policy identity (auth_key prefix) Authz.read
    then listed (gather stale_read prefix shards)
    else list_refused unauthorized_key

pub record Observer : Type 0 where
  pub identity : Bytes
  pub replica_id : ℕ

pub record ObserverSet : Type 0 where
  pub observers : List Observer
  pub partial_set : Bool

pub record RecordReply : Type 0 where
  pub found : Record
  pub value : Option Bytes
  pub contenders : List WaiterInfo
  pub watchers : List Observer
  pub partial_reply : Bool

pub data GetReply : Type 0 where
  one_record : RecordReply → GetReply
  get_refused : ServerError → GetReply

abbrev pub described : Bytes → Waiters → Option ObserverSet → GetReply
described name w none = get_refused backend
described name w (some obs) = one_record (record {
  found = record {
    key = name;
    kind = kind_of (is_some w.value);
    held = w.held;
    holder_client_id = w.holder;
    fencing_token = w.token;
    queue_depth = u32 (length w.entries);
    revision = w.revision;
  };
  value = w.value;
  contenders = w.entries;
  watchers = obs.observers;
  partial_reply = obs.partial_set;
})

abbrev pub described_wait : Bytes → Option ObserverSet → Option Waiters → GetReply
described_wait name obs none = get_refused backend
described_wait name obs (some w) = described name w obs

abbrev pub admitted_get : GetReply → Option ServerError → GetReply
admitted_get reply (some e) = get_refused e
admitted_get reply none = reply

unfoldable pub get_record :
    Authorizer
    → (Bytes → ℕ)
    → (ℕ → Bytes → Option Waiters)
    → (Bytes → Option ObserverSet)
    → Bytes
    → Bytes
    → GetReply
unfolding authorize require_key_path
get_record policy shard read observers identity name =
    admitted_get (described_wait name (observers name) (read (shard name) name))
      (authorized policy identity name Authz.read (require_key_path name))

-- Observations as a node reports them.
unfoldable pub attribute : ℕ → List Observation → List Observer
attribute id [] = []
attribute id (o ∷ os) = record { identity = o.seen_identity; replica_id = id } ∷ attribute id os

abbrev pub joined : Option (ℕ × List Observation) → ObserverSet → ObserverSet
joined none rest = record rest { partial_set = true }
joined (some (id, os)) rest = record rest { observers = attribute id os ++ rest.observers }

-- The fan-out to the peers; the node itself and a member with no address are passed over.
unfoldable pub ask_peers : (Bytes → Option (ℕ × List Observation)) → ℕ → List Member → ObserverSet
ask_peers peers me [] = record { observers = []; partial_set = false }
ask_peers peers me (m ∷ ms) =
    let rest = ask_peers peers me ms in
    let unasked = m.replica_id == me || is_empty m.zuul_grpc_address in
    if unasked then rest else joined (peers m.zuul_grpc_address) rest
  where
    is_empty : Bytes → Bool
    is_empty [] = true
    is_empty (c ∷ cs) = false

unfoldable pub aggregate :
    List Observation
    → ℕ
    → (Bytes → Option (ℕ × List Observation))
    → Option (List Member)
    → ObserverSet
unfolding attribute ask_peers
aggregate local me peers none = record { observers = attribute me local; partial_set = true }
aggregate local me peers (some ms) =
    let rest = ask_peers peers me ms in
    record rest { observers = attribute me local ++ rest.observers }
