-- ===== src/Auth/Authz.antt =====
-- internal/auth/authz: authz.go (the policies) and `parseMode` of file.go. A nil error is `true`,
-- ErrDenied is `false`.
pub mod Policy
pub mod File
pub mod Loaded
use zuul.Shared.{
  Bytes, Bool, true, false, Option, none, some, List, [], ◌∷◌, ◌++◌, ite, ◌≟◌, if◌then◌else◌, ◌==◌,
  ◌||◌, ◌&&◌, bytes_key, not, ℕ,
}
use zuul.GoMap.{GoMap, get, put}
use zuul.Auth.Keypath.{has_prefix, owner}

pub data Op : Type 0 where
  unknown read write admin : Op

pub record Rule : Type 0 where
  pub prefix : Bytes
  pub write : Bool
  pub admin : Bool

-- The policies: `allowAll`, `prefixPolicy` and `homeDir`.
pub data Authorizer : Type 0 where
  allow_all : Authorizer
  prefix_policy : GoMap Bytes (List Rule) → Authorizer
  home_dir : Authorizer → Authorizer

-- A nil Authorizer is none.
unfoldable pub needs_identity : Option Authorizer → Bool
needs_identity none = false
needs_identity (some allow_all) = false
needs_identity (some _) = true

unfoldable pub prefix_covers : Bytes → Bytes → Bool
prefix_covers prefix key = has_prefix prefix key

-- The rule grants the right.
unfoldable pub grants : Rule → Op → Bool
grants r read = true
grants r write = r.write
grants r admin = r.admin
grants r unknown = false

-- The loop over the rules of an identity.
unfoldable pub check_rules : List Rule → Bytes → Op → Bool
unfolding prefix_covers grants
check_rules [] key op = false
check_rules (r ∷ rs) key op =
    let rest = check_rules rs key op in
    if not (prefix_covers r.prefix key) then rest else if grants r op then true else rest

-- p.rules[identity]
unfoldable pub rules_of : GoMap Bytes (List Rule) → Bytes → List Rule
rules_of rules identity = elim (get rules identity) [ none ↦ [] | some rs ↦ rs ]

abbrev pub reads_or_writes : Op → Bool
reads_or_writes read = true
reads_or_writes write = true
reads_or_writes _ = false

unfoldable pub owned_by : Option Bytes → Bytes → Bool
owned_by none identity = false
owned_by (some user) identity = ite (user ≟ identity) true false

unfoldable pub is_home : Bytes → Bytes → Op → Bool
unfolding owned_by
is_home identity key op =
    ite (identity ≟ []) false (reads_or_writes op && owned_by (owner key) identity)

unfoldable pub authorize : Authorizer → Bytes → Bytes → Op → Bool
unfolding check_rules rules_of is_home
authorize allow_all identity key op = true
authorize (prefix_policy rules) identity key op = check_rules (rules_of rules identity) key op
authorize (home_dir inner) identity key op =
    let rest = authorize inner identity key op in if is_home identity key op then true else rest

-- The loop of `parseMode` over what follows the "r"; none where the source returns an error.
unfoldable pub parse_rights : Rule → Bytes → Option Rule
parse_rights r [] = some r
parse_rights r (c ∷ cs) =
    let writes = parse_rights (record r { write = true }) cs in
    let admins = parse_rights (record r { admin = true }) cs in
    if c == b'w' then writes else if c == b'a' then admins else none

unfoldable pub parse_mode : Bytes → Option Rule
unfolding parse_rights
parse_mode [] = none
parse_mode (c ∷ cs) =
    if c == b'r'
    then parse_rights (record { prefix = []; write = false; admin = false }) cs
    else none
