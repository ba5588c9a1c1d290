-- ===== src/Examples/Access.antt =====
-- The theorems on keys, policies and the meta shard, applied.
use zuul.Node.Gate.{BearerAuth, Context, enabled, check, class_client}
use zuul.Node.Identity.{Carries, check-Carries}
use zuul.Shared.{
  ℕ, Bytes, true, false, none, some, List, [], ◌∷◌, All, ◌≡◌, ◌↔◌, ◌≤◌, refl, arith, length, codes,
  bytes_key, nat_key,
}
use zuul.GoMap.{get}
use zuul.Auth.Keypath.{validate, owner, has_prefix, max_path_len}
use zuul.Auth.Keypath
use zuul.Auth.Keypath.Canonical.{IsCanonical, IsLegal, render, validate-IsCanonical, owner-render}
use zuul.Auth.Keypath.Prefix.{Covers, has_prefix-Covers}
use zuul.Meta.{Member, MetaCommand, put_member, delete_member, Store, new_store, list_query}
use zuul.Meta
use zuul.Meta.RoundTrip.{SameStore, log-restore, run-last_word, last_word, query_unique}
use zuul.Examples.{key, ann}

validate-IsCanonical_example : (validate key ≡ none) ↔ IsCanonical key
validate-IsCanonical_example = validate-IsCanonical key

abbrev lock_segment : Bytes
lock_segment = codes "lock"

segments-IsLegal : All IsLegal (ann ∷ lock_segment ∷ [])
unfolding Keypath.is_segment_rune
segments-IsLegal = (
  (
    (λ e. ground (arith, e)),
    (λ e. ground (arith, e)),
    (λ e. ground (arith, e)),
    omega arith,
    (refl, (refl, (refl, tt))),
  ),
  (
    (
      (λ e. ground (arith, e)),
      (λ e. ground (arith, e)),
      (λ e. ground (arith, e)),
      omega arith,
      (refl, (refl, (refl, (refl, tt)))),
    ),
    tt,
  ),
)

short : length (render (ann ∷ lock_segment ∷ [])) ≤ max_path_len
unfolding render
short = omega arith

owner-render_example : owner (render (ann ∷ lock_segment ∷ [])) ≡ some ann
owner-render_example = owner-render ann (lock_segment ∷ []) (omega arith) segments-IsLegal short

has_prefix-Covers_example : (has_prefix (codes "/ann/") key ≡ true) ↔ Covers (codes "/ann/") key
has_prefix-Covers_example = has_prefix-Covers (codes "/ann/") key

abbrev member : ℕ → Member
member id = record {
  replica_id = id;
  raft_address = codes "r:1";
  zuul_grpc_address = codes "z:1";
  node_host_id = [];
}

abbrev topology : List MetaCommand
topology = put_member (member 1) ∷ put_member (member 2) ∷ delete_member 1 ∷ []

log-restore_example :
    SameStore
      (Meta.run new_store topology)
      (Meta.restore new_store (Meta.snapshot (Meta.run new_store topology)))
log-restore_example = log-restore topology new_store

run-last_word_example :
    get (Meta.run new_store topology).members 1 ≡ last_word topology 1 (get new_store.members 1)
run-last_word_example = run-last_word topology new_store 1

abbrev one_order : Store
one_order = record { members = (1, member 1) ∷ (2, member 2) ∷ []; revision = 2 }

abbrev other_order : Store
other_order = record { members = (2, member 2) ∷ (1, member 1) ∷ []; revision = 2 }

orders_agree : (id : ℕ) → get one_order.members id ≡ get other_order.members id
unfolding get
orders_agree id = ground arith

query_unique_example : Meta.query one_order list_query ≡ Meta.query other_order list_query
query_unique_example = query_unique one_order other_order orders_agree list_query

-- The hash is the identity function.
abbrev bearer : BearerAuth
bearer = record { tokens = (codes "secret", ann) ∷ []; oidc = none }

abbrev call : Context
call = record {
  has_metadata = true;
  authorization = codes "Bearer secret" ∷ [];
  user_header = [];
  attached = none;
  leaf = none;
}

bearer-enabled : enabled bearer ≡ true
unfolding enabled
bearer-enabled = refl

check-Carries_example :
    Carries (λ t. t) bearer call (check (λ t. t) bearer false none [] call class_client)
check-Carries_example = check-Carries (λ t. t) bearer false none [] call bearer-enabled
