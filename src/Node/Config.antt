-- ===== src/Node/Config.antt =====
-- The security settings of a node and the gate built from them: `Config` and `New` of internal/node/node.go,
-- `hashTokens` of internal/node/auth.go. A file name that is not set is the empty one.
use zuul.Shared.{
  Bytes, Bool, true, false, Option, none, some, List, [], ◌∷◌, if◌then◌else◌, ◌||◌, ◌&&◌, not,
  bytes_key,
}
use zuul.GoMap.{GoMap, put}
use zuul.Node.Gate.{BearerAuth, Certificate, nonempty}

pub record Config : Type 0 where
  pub mutual_tls : Bool
  pub server_tls : Bool
  pub ca_file : Bytes
  pub cert_file : Bytes
  pub key_file : Bytes
  pub tokens : GoMap Bytes Bytes
  pub oidc_issuer : Bytes
  pub oidc_audience : Bytes
  pub ui_enable : Bool
  pub ui_bind : Bytes
  pub ui_tls : Bool
  pub peer_ca_file : Bytes
  pub peer_allowed_cns : List Bytes

pub data ConfigError : Type 0 where
  both_tls missing_tls_files oidc_half_set bearer_without_tls ui_without_bind ui_tls_without_cert :
      ConfigError

abbrev pub is_set : Bytes → Bool
is_set s = nonempty s

unfoldable pub bearer_enabled : Config → Bool
bearer_enabled c = nonempty c.tokens || is_set c.oidc_issuer

unfoldable pub has_client_identity : Config → Bool
unfolding bearer_enabled
has_client_identity c = c.mutual_tls || bearer_enabled c

abbrev differ : Bool → Bool → Bool
differ true b = not b
differ false b = b

-- none for a valid configuration
unfoldable pub validate : Config → Option ConfigError
unfolding bearer_enabled
validate c =
    if c.mutual_tls && c.server_tls
    then some both_tls
    else if (c.mutual_tls || c.server_tls)
        && (not (is_set c.ca_file) || (not (is_set c.cert_file) || not (is_set c.key_file)))
    then some missing_tls_files
    else if differ (not (is_set c.oidc_issuer)) (not (is_set c.oidc_audience))
    then some oidc_half_set
    else if bearer_enabled c && (not c.mutual_tls && not c.server_tls)
    then some bearer_without_tls
    else if c.ui_enable && not (is_set c.ui_bind)
    then some ui_without_bind
    else if c.ui_tls && not (is_set c.cert_file)
    then some ui_tls_without_cert
    else none

-- The loop over the map of tokens.
unfoldable pub hash_all :
    (Bytes → Bytes) → GoMap Bytes Bytes → GoMap Bytes Bytes → GoMap Bytes Bytes
hash_all hash [] h = h
hash_all hash ((token, id) ∷ rest) h = hash_all hash rest (put h (hash token) id)

unfoldable pub hash_tokens : (Bytes → Bytes) → GoMap Bytes Bytes → GoMap Bytes Bytes
unfolding hash_all
hash_tokens hash tokens = hash_all hash tokens []

-- The Common Names that are not empty.
unfoldable pub peer_cns : List Bytes → GoMap Bytes (Unit {0}) → GoMap Bytes (Unit {0})
peer_cns [] m = m
peer_cns (cn ∷ cns) m = peer_cns cns (if is_set cn then put m cn tt else m)

-- The gate that `New` builds: `verifier` is what the OIDC discovery gives, `load` the pool of CA
-- certificates in a file; none is an error.
pub record Gate : Type 0 where
  pub bearer : BearerAuth
  pub guard_peer : Bool
  pub chains : Option (Certificate → Bool)
  pub cns : GoMap Bytes (Unit {0})

abbrev pub wrapped : {A : Type 0} → Option A → Option (Option A)
wrapped none = none
wrapped (some a) = some (some a)

module _ (hash : Bytes → Bytes) (verifier : Bytes → Option (Bytes → Option Bytes))
    (load : Bytes → Option (Certificate → Bool)) where
  abbrev pub oidc_of : Config → Option (Option (Bytes → Option Bytes))
  oidc_of c = if is_set c.oidc_issuer then wrapped (verifier c.oidc_issuer) else some none

  abbrev pub pool_of : Config → Option (Option (Certificate → Bool))
  pool_of c = if is_set c.peer_ca_file then wrapped (load c.peer_ca_file) else some none

  abbrev pub built :
      Config
      → Option (Option (Bytes → Option Bytes))
      → Option (Option (Certificate → Bool))
      → Option Gate
  built c none pool = none
  built c (some oidc) none = none
  built c (some oidc) (some pool) = some (record {
    bearer = record { tokens = hash_tokens hash c.tokens; oidc = oidc };
    guard_peer = c.mutual_tls || c.server_tls;
    chains = pool;
    cns = peer_cns c.peer_allowed_cns [];
  })

  abbrev pub unless_invalid : Option Gate → Option ConfigError → Option Gate
  unless_invalid g (some e) = none
  unless_invalid g none = g

  unfoldable pub new_gate : Config → Option Gate
  unfolding validate hash_tokens peer_cns
  new_gate c = unless_invalid (built c (oidc_of c) (pool_of c)) (validate c)
