-- ===== src/Node/Gate.antt =====
-- The authentication gate of internal/node/auth.go. The hash of a token, the OIDC verifier, the chain
-- check of a certificate and the prefixes of the generated services are parameters.
use zuul.Shared.{
  ℕ, ◌+◌, Bytes, Bool, true, false, Option, none, some, List, [], ◌∷◌, ite, ◌≟◌, if◌then◌else◌,
  ◌==◌, ◌||◌, ◌&&◌, bytes_key, codes, ltb, is_some, not,
}
use zuul.GoMap.{GoMap, get, has}
use zuul.Auth.Keypath.{starts_with}

pub data MethodClass : Type 0 where
  class_client class_peer class_open : MethodClass

-- strings.HasPrefix(fullMethod, ...)
unfoldable pub classify : (health forward method : Bytes) → MethodClass
unfolding starts_with
classify health forward method =
    if starts_with method health
    then class_open
    else if starts_with method forward
    then class_peer
    else class_client

pub data AuthError : Type 0 where
  missing_credentials invalid_token identity_mismatch : AuthError
  peer_cert_required peer_cert_untrusted peer_cert_not_allowed : AuthError

pub record Certificate : Type 0 where
  pub common_name : Bytes
  pub raw : Bytes

-- What the gate reads of a context: the metadata of the call (none where there is none), with the
-- values of its two headers, the identity attached to it, and the verified leaf certificate.
pub record Context : Type 0 where
  pub has_metadata : Bool
  pub authorization : List Bytes
  pub user_header : List Bytes
  pub attached : Option Bytes
  pub leaf : Option Certificate

pub data Checked : Type 0 where
  passed : Context → Checked
  denied : AuthError → Checked

abbrev pub certificate_name : Option Certificate → Option Bytes
certificate_name none = none
certificate_name (some cert) = some cert.common_name

abbrev pub identity_or : Option Certificate → Option Bytes → Option Bytes
identity_or leaf none = certificate_name leaf
identity_or leaf (some id) = ite (id ≟ []) (certificate_name leaf) (some id)

-- `IdentityFromContext` of context/identity.go.
unfoldable pub identity_from : Context → Option Bytes
identity_from ctx = identity_or ctx.leaf ctx.attached

-- The ASCII space of strings.TrimSpace.
abbrev pub is_space : ℕ → Bool
is_space c = (c == 32) || ((ltb 8 c) && (ltb c 14))

unfoldable pub trim_left : Bytes → Bytes
trim_left [] = []
trim_left (c ∷ cs) = let rest = trim_left cs in if is_space c then rest else c ∷ cs

-- The space at the end goes: a byte is dropped if nothing is left behind it.
unfoldable pub trim_right : Bytes → Bytes
trim_right [] = []
trim_right (c ∷ cs) =
    let rest = trim_right cs in ite (rest ≟ []) (if is_space c then [] else c ∷ []) (c ∷ rest)

unfoldable pub trim_space : Bytes → Bytes
unfolding trim_left trim_right
trim_space s = trim_right (trim_left s)

abbrev lower : ℕ → ℕ
lower c = if ltb 64 c && ltb c 91 then c + 32 else c

-- Strips the prefix, in any case; none if the text does not start with it.
unfoldable pub strip_fold : (prefix text : Bytes) → Option Bytes
strip_fold [] s = some s
strip_fold (p ∷ ps) [] = none
strip_fold (p ∷ ps) (c ∷ cs) =
    let rest = strip_fold ps cs in if lower p == lower c then rest else none

abbrev pub or_whole : Bytes → Option Bytes → Bytes
or_whole s none = s
or_whole s (some rest) = rest

unfoldable pub bearer_token : Bytes → Bytes
unfolding trim_space strip_fold
bearer_token value = let s = trim_space value in or_whole s (strip_fold (codes "bearer ") s)

pub record BearerAuth : Type 0 where
  pub tokens : GoMap Bytes Bytes
  pub oidc : Option (Bytes → Option Bytes)

abbrev pub nonempty : {A : Type 0} → List A → Bool
nonempty [] = false
nonempty (x ∷ xs) = true

unfoldable pub enabled : BearerAuth → Bool
enabled b = nonempty b.tokens || is_some b.oidc

unfoldable pub first_metadata : Context → Bytes
unfolding trim_space
first_metadata ctx = if ctx.has_metadata then first ctx.user_header else []
  where
    first : List Bytes → Bytes
    first [] = []
    first (v ∷ vs) = trim_space v

abbrev pub as_identity : Context → Bytes → Checked
as_identity ctx id = passed (record ctx { attached = some id })

abbrev pub verified : Context → Option Bytes → Checked
verified ctx none = denied invalid_token
verified ctx (some id) = as_identity ctx id

abbrev pub by_oidc : Context → Bytes → Option (Bytes → Option Bytes) → Checked
by_oidc ctx token none = denied invalid_token
by_oidc ctx token (some verify) = verified ctx (verify token)

abbrev pub by_token : Context → BearerAuth → Bytes → Option Bytes → Checked
by_token ctx b token (some id) = as_identity ctx id
by_token ctx b token none = by_oidc ctx token b.oidc

-- The claim of the header against the identity that is there.
abbrev pub reconciled : Context → Bytes → Option Bytes → Checked
reconciled ctx user none = ite (user ≟ []) (passed ctx) (as_identity ctx user)
reconciled ctx user (some id) =
    ite (id ≟ []) (ite (user ≟ []) (passed ctx) (as_identity ctx user))
      (ite (user ≟ []) (passed ctx) (ite (user ≟ id) (passed ctx) (denied identity_mismatch)))

unfoldable pub reconcile_user : Context → Checked
unfolding first_metadata identity_from
reconcile_user ctx = reconciled ctx (first_metadata ctx) (identity_from ctx)

-- `chains` is the verification against the peer CA, none where no peer CA is configured; `cns` are the
-- allowed Common Names.
unfoldable pub verify_peer :
    Option (Certificate → Bool) → GoMap Bytes (Unit {0}) → Context → Option AuthError
verify_peer chains cns ctx = leaf_error ctx.leaf
  where
    name_error : Certificate → Option AuthError
    name_error cert =
        if nonempty cns && not (has cns cert.common_name) then some peer_cert_not_allowed else none

    chain_error : Certificate → Option (Certificate → Bool) → Option AuthError
    chain_error cert none = name_error cert
    chain_error cert (some chain) = if chain cert then name_error cert else some peer_cert_untrusted

    leaf_error : Option Certificate → Option AuthError
    leaf_error none = some peer_cert_required
    leaf_error (some cert) = chain_error cert chains

module _ (hash : Bytes → Bytes) where
  abbrev pub with_values : BearerAuth → Context → List Bytes → Checked
  with_values b ctx [] = denied missing_credentials
  with_values b ctx (v ∷ vs) =
      let token = bearer_token v in by_token ctx b token (get b.tokens (hash token))

  unfoldable pub authenticate : BearerAuth → Context → Checked
  unfolding bearer_token
  authenticate b ctx =
      if ctx.has_metadata then with_values b ctx ctx.authorization else denied missing_credentials

  abbrev pub then_reconciled : Checked → Checked
  then_reconciled (denied e) = denied e
  then_reconciled (passed ctx) = reconcile_user ctx

  abbrev pub as_peer : Context → Option AuthError → Checked
  as_peer ctx none = passed ctx
  as_peer ctx (some e) = denied e

  -- `check`: `guard` is guardPeer.
  unfoldable pub check :
      BearerAuth
      → Bool
      → Option (Certificate → Bool)
      → GoMap Bytes (Unit {0})
      → Context
      → MethodClass
      → Checked
  unfolding enabled authenticate reconcile_user verify_peer
  check b guard chains cns ctx class_open = passed ctx
  check b guard chains cns ctx class_peer =
      if guard then as_peer ctx (verify_peer chains cns ctx) else passed ctx
  check b guard chains cns ctx class_client =
      if enabled b then then_reconciled (authenticate b ctx) else reconcile_user ctx
