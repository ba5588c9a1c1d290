-- ===== src/Examples/Admin.antt =====
-- The theorems on browsing, policy files, the gate, streams and the cluster service, applied.
use zuul.Shared.{
  ℕ, zero, suc, Bytes, Bool, true, false, Option, none, some, List, [], ◌∷◌, ◌≡◌, ◌≢◌, ◌⊎◌, inl,
  inr, refl, ap, subst, arith, codes, if◌then◌else◌, length, bytes_key, nat_key, ◌≟◌, All,
}
use zuul.GoMap.{get, has, put, get-put}
use zuul.Fsm.Types.{Fsm, Command, CommandResult}
use zuul.Auth.Keypath.{validate}
use zuul.Auth.Keypath
use zuul.Auth.Authz.{Authorizer, prefix_policy, home_dir, rules_of}
use zuul.Consensus.Host.{add_replica_shard}
use zuul.Consensus.Membership.{is_member}
use zuul.Server.Browse.{list_records}
use zuul.Server.Confined.{Tidy, Readable, reads, list_records-Readable}
use zuul.Server.Stream.{Request, closed, keep_alive, Answered, keep_alive-closed}
use zuul.Node.Gate.{Context, denied, peer_cert_required, class_peer, enabled, check, Certificate}
use zuul.Node.Config.{Config, Gate, bearer_enabled, new_gate, hash_tokens, peer_cns}
use zuul.Node.Config
use zuul.Node.Guard.{new_gate-guards}
use zuul.Session
use zuul.Examples.{key, ann, bob}
use zuul.Examples.Serving.{plain}
use zuul.Shared.{◌+◌, ◌≤◌, ◌↔◌}
use zuul.Auth.Authz.{authorize, allow_all, admin, read, reads_or_writes}
use zuul.Auth.Authz.Policy.{Owns, Granted}
use zuul.Auth.Authz.File.{load_file}
use zuul.Auth.Authz.Loaded.{rules_in, load_file-permits}
use zuul.Meta.{MetaCommand}
use zuul.Server.Browse.{cluster_key}
use zuul.Server.Cluster.{AddNodeRequest, add_node}
use zuul.Server.Joining.{host_changer, host_changer-ChangerLaws, add_node-everywhere}
use zuul.Consensus.Membership.{AddKeeps}
use zuul.Node.Limiter
use zuul.Node.Limiter.{max_identity_limiters, allow_all-bound}
use zuul.Examples.Relaying.{Members, echo, host, echo-AddShows}

-- A shard in which Ann holds a key, and a policy that lets Bob read what is Ann's.
abbrev one_lock : Fsm
one_lock = record {
  locks = (key, record { name = key; holder = ann; token = 1; value = none; queue = [] }) ∷ [];
  leases = [];
  seq = 1;
  revision = 1;
  notifier = false;
  events = [];
}

abbrev anns : Bytes
anns = codes "/ann/"

abbrev policy : Authorizer
policy =
    home_dir
      (prefix_policy ((bob, record { prefix = anns; write = false; admin = false } ∷ []) ∷ []))

policy-Tidy : Tidy policy bob
unfolding rules_of get zuul.Shared.bytes_dec Keypath.ends_with_slash Keypath.trim_slash
policy-Tidy = (refl, tt)

key-canonical : validate key ≡ none
unfolding validate Keypath.split Keypath.check_segments Keypath.ends_with_slash
    zuul.Shared.bytes_dec
key-canonical = refl

locks-canonical : (s : ℕ) (n : Bytes) → has one_lock.locks n ≡ true → validate n ≡ none
unfolding get
locks-canonical s n h = elim (key ≟ n) [
  | yes e ↦ subst (λ k. validate k ≡ none) e key-canonical
  | no e ↦ ground (arith, e, h)
]

list_records-Readable_example :
    Readable policy bob (list_records policy (reads (λ s. one_lock)) (1 ∷ []) bob anns)
list_records-Readable_example =
    list_records-Readable policy bob anns policy-Tidy (λ s. one_lock) (1 ∷ []) locks-canonical
      (λ e. ground (arith, e))

abbrev node_config : Config
node_config = record {
  mutual_tls = false;
  server_tls = true;
  ca_file = codes "ca.pem";
  cert_file = codes "node.pem";
  key_file = codes "node.key";
  tokens = (codes "secret", ann) ∷ [];
  oidc_issuer = [];
  oidc_audience = [];
  ui_enable = false;
  ui_bind = [];
  ui_tls = false;
  peer_ca_file = [];
  peer_allowed_cns = [];
}

abbrev node_gate : Gate
node_gate = record {
  bearer = record { tokens = (codes "secret", ann) ∷ []; oidc = none };
  guard_peer = true;
  chains = none;
  cns = [];
}

abbrev unchanged : Bytes → Bytes
unchanged s = s

abbrev no_verifier : Bytes → Option (Bytes → Option Bytes)
no_verifier issuer = none

abbrev no_pool : Bytes → Option (Certificate → Bool)
no_pool file = none

built_gate : new_gate unchanged no_verifier no_pool node_config ≡ some node_gate
unfolding new_gate Config.validate hash_tokens peer_cns zuul.Shared.bytes_dec put
built_gate = refl

abbrev stranger : Context
stranger = record {
  has_metadata = true;
  authorization = [];
  user_header = [];
  attached = none;
  leaf = none;
}

new_gate-guards_example :
    (enabled node_gate.bearer ≡ bearer_enabled node_config)
    × ((if bearer_enabled node_config
          then check unchanged node_gate.bearer node_gate.guard_peer node_gate.chains node_gate.cns
              stranger class_peer
          else denied peer_cert_required)
        ≡ denied peer_cert_required)
new_gate-guards_example =
    new_gate-guards unchanged no_verifier no_pool node_config node_gate stranger built_gate refl

-- A stream of two requests, without a client id.
abbrev asks : ℕ → Request
asks at = record { client_id = []; ttl_ms = 30000; now = at; delivered = true }

abbrev answers_all : Members → ℕ → Command → Members × Option CommandResult
answers_all w s c = (w, none)

abbrev unread : Members → ℕ → Bytes → Option Bool
unread w s c = none

abbrev same_ttl : ℕ → ℕ
same_ttl t = t

well_ended :
    (keep_alive answers_all
      (plain Command)
      (plain CommandResult)
      unread
      []
      bob
      same_ttl
      []
      []
      (asks 1000 ∷ asks 2000 ∷ [])
      closed).4
    ≡ closed
unfolding keep_alive get Session.open_session Session.keep_session zuul.Shared.bytes_dec put
well_ended = refl

keep_alive-closed_example :
    let out =
      keep_alive answers_all
        (plain Command)
        (plain CommandResult)
        unread
        []
        bob
        same_ttl
        []
        []
        (asks 1000 ∷ asks 2000 ∷ [])
        closed in
    Answered answers_all
      (plain Command)
      (plain CommandResult)
      unread
      []
      bob
      same_ttl
      (asks 1000 ∷ asks 2000 ∷ [])
      (bob, 30000)
      out.3
    × (get out.1 bob ≡ none)
unfolding zuul.Shared.bytes_dec
keep_alive-closed_example =
    keep_alive-closed answers_all (plain Command) (plain CommandResult) unread [] bob same_ttl
      (asks 1000) (asks 2000 ∷ []) [] [] well_ended

-- Every member is kept when another is added.
echo-AddKeeps : AddKeeps echo
echo-AddKeeps w s id addr j i h = ground (arith, get-put w id addr i, h)

abbrev node : AddNodeRequest
node = record {
  replica_id = 7;
  raft_address = codes "r:1";
  zuul_grpc_address = codes "z:1";
  node_host_id = [];
}

abbrev no_change : Members → ℕ → MetaCommand → Members × Option ℕ
no_change w s b = (w, some 0)

node-added :
    (add_node
      (host_changer echo host)
      true
      (plain MetaCommand)
      no_change
      0
      (1 ∷ [])
      allow_all
      ann
      []
      node).1
    ≡ none
unfolding add_node authorize add_replica_shard get
node-added = refl

add_node-everywhere_example :
    (authorize allow_all ann cluster_key admin ≡ true)
    × All {A = ℕ}
        (λ s.
          is_member
            (some
              (add_node
                (host_changer echo host)
                true
                (plain MetaCommand)
                no_change
                0
                (1 ∷ [])
                allow_all
                ann
                []
                node).0)
            7
          ≡ true)
        (1 ∷ [])
add_node-everywhere_example =
    add_node-everywhere (host_changer echo host)
      (host_changer-ChangerLaws echo host echo-AddShows echo-AddKeeps) true (plain MetaCommand)
      no_change 0 (1 ∷ []) (λ w s b j i. refl) allow_all ann [] node node-added

-- A file of one comment and one rule.
abbrev acl : List Bytes
acl = codes "# who" ∷ codes "bob /ann/ r" ∷ []

abbrev acl_policy : Authorizer
acl_policy =
    home_dir
      (prefix_policy ((bob, record { prefix = anns; write = false; admin = false } ∷ []) ∷ []))

acl-loaded : load_file acl true ≡ some acl_policy
unfolding load_file zuul.Shared.bytes_dec put get
acl-loaded = refl

load_file-permits_example :
    (authorize acl_policy bob key read ≡ true)
    ↔ (((reads_or_writes read ≡ true) × Owns bob key) ⊎ Granted (rules_in acl bob) key read)
load_file-permits_example = load_file-permits acl acl_policy bob key read acl-loaded

abbrev always : ℕ → ℕ × Bool
always n = (n + 1, true)

allow_all-bound_example :
    length (Limiter.allow_all 0 always [] (ann ∷ bob ∷ ann ∷ [])) ≤ max_identity_limiters
allow_all-bound_example = allow_all-bound 0 always [] (ann ∷ bob ∷ ann ∷ []) (omega arith)
