-- ===== src/Examples/Relaying.antt =====
-- The theorems on the Raft host, the dispatcher and errors, applied.
use zuul.Shared.{
  ℕ, zero, suc, Bytes, Bool, true, false, Option, none, some, List, [], ◌∷◌, ◌≡◌, ◌≢◌, ◌⊎◌, inl,
  inr, refl, ap, subst, arith, codes, if◌then◌else◌, length, bytes_key, nat_key, ◌≟◌, All,
}
use zuul.GoMap.{GoMap, get, has, put, delete, get-put}
use zuul.Consensus.Host.{NodeHost, Host, add_replica_shard}
use zuul.Consensus.Host
use zuul.Consensus.Membership.{AddShows, is_member, add_replica_shard_again}
use zuul.Forward.{Local}
use zuul.Forward.Pool.{Pool, new_pool, client, close}
use zuul.Forward.Dispatch
use zuul.Forward.Dispatch.{Attempt, CallError, peer_unavailable, propose}
use zuul.Forward.Serve
use zuul.Forward.Leader.{last, host_local, Committed, propose-Committed}
use zuul.Forward.Closing.{request, eviction, closing, In, run, client-close}
use zuul.Errors.{cat_precondition, foreign, stamped, code, grpc_status}
use zuul.Errors.Crossing.{received, category, received-category}
use zuul.Examples.{key, bob}

-- A Raft host of which the state is the members, and which answers a proposal with the command.
abbrev pub Members : Type 0
Members = GoMap ℕ Bytes

abbrev pub echo : NodeHost Members ℕ ℕ
echo = record {
  get_leader_id = λ w s. some (some 1);
  sync_propose = λ w s c. (w, some c);
  sync_read = λ w s q. none;
  stale_read = λ w s q. none;
  sync_get_membership = λ w s. some w;
  sync_request_add_node = λ w s id addr. (put w id addr, true);
  sync_request_delete_node = λ w s id. (delete w id, true);
  request_leader_transfer = λ w s id. w;
}

abbrev pub host : Host
host = record {
  sessions = (1, tt) ∷ [];
  shards = 1 ∷ [];
  hosted = 1 ∷ [];
  meta_shard_id = 0;
  replica_id = 1;
  raft_addr = [];
  grpc_addr = [];
  node_host_id = [];
}

pub echo-AddShows : AddShows echo
echo-AddShows w v s id addr e =
    subst (λ m. has m id ≡ true) (ap (λ p. p.0) e) (ground (arith, get-put w id addr id))

added : (add_replica_shard echo host [] 1 7 key).1 ≡ none
unfolding add_replica_shard get
added = refl

add_replica_shard_again_example :
    let v = (add_replica_shard echo host [] 1 7 key).0 in
    (is_member (some v) 7 ≡ true) × (add_replica_shard echo host v 1 7 key ≡ (v, none))
add_replica_shard_again_example = add_replica_shard_again echo host echo-AddShows 1 7 key [] added

abbrev no_address : Members → ℕ → Option Bytes
no_address w id = none

abbrev dial : Bytes → Option Bytes
dial addr = some addr

abbrev this_node : Bytes → Local Members ℕ ℕ
this_node conn = host_local echo host

abbrev unreachable : Members → Bytes → ℕ → ℕ → Members × (CallError ⊎ ℕ)
unreachable w conn s c = (w, inl peer_unavailable)

unreachable-answers :
    (w : Members) (conn : Bytes) (s c r : ℕ)
    → (unreachable w conn s c).1 ≡ inr r
    → (v : Members) × ((Serve.propose (this_node conn) v s c).1 ≡ inr r)
unreachable-answers w conn s c r e = ground (arith, e)

abbrev once :
    (Members × Pool Bytes → (Members × Pool Bytes) × Attempt ℕ)
    → Members × Pool Bytes
    → (Members × Pool Bytes) × Attempt ℕ
once op t = op t

proposed :
    (propose (host_local echo host) no_address dial once unreachable ([], new_pool) 1 5).1 ≡ inr 5
unfolding propose Dispatch.propose_once Dispatch.route Dispatch.classify Host.propose Host.is_leader
    get zuul.Shared.ℕ_discrete
proposed = refl

propose-Committed_example : Committed echo host no_address dial this_node 1 5 5
propose-Committed_example =
    propose-Committed echo host no_address dial this_node unreachable unreachable-answers once
      ([], new_pool) 1 5 5 (λ op t. last t) proposed

dialed : (client dial new_pool key).1 ≡ some key
unfolding client new_pool get
dialed = refl

client-close_example :
    let q =
      close (run dial (client dial new_pool key).0 (request bob ∷ eviction key ∷ closing ∷ [])) in
    In dial key q.shut × (q.conns ≡ []) × ((a : Bytes) → client dial q a ≡ (q, none))
client-close_example =
    client-close dial new_pool key key (request bob ∷ eviction key ∷ closing ∷ []) dialed

received-category_example :
    let got = received (some (stamped cat_precondition (foreign none))) in
    (category got ≡ some cat_precondition)
    × (got ≡ some (stamped cat_precondition (foreign (some (code cat_precondition)))))
received-category_example = received-category cat_precondition (foreign none) no_status
  where
    no_status : grpc_status (foreign none) ≡ none
    no_status = unfold grpc_status in refl
