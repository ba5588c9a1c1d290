-- ===== src/Auth/Authz/File.antt =====
-- The files of rules and of tokens: internal/auth/authz/file.go and token.go. The lines are what the scanner
-- delivers, and whether it ended without an error; their space is the ASCII one.
use zuul.Shared.{
  Bytes, codes, Bool, true, Option, none, some, List, [], ◌∷◌, ◌++◌, ite, ◌≟◌, if◌then◌else◌, ◌==◌,
  bytes_key,
}
use zuul.GoMap.{GoMap, put}
use zuul.Auth.Keypath.{add_to_head}
use zuul.Auth.Authz.{Rule, Authorizer, prefix_policy, home_dir, rules_of, parse_mode}
use zuul.Node.Gate.{trim_space, is_space}

-- strings.Fields
abbrev ends_field : Bytes → Bool
ends_field [] = true
ends_field (c ∷ cs) = is_space c

unfoldable pub fields : Bytes → List Bytes
fields [] = []
fields (c ∷ cs) =
    let rest = fields cs in
    if is_space c then rest else if ends_field cs then (c ∷ []) ∷ rest else add_to_head c rest

abbrev pub is_comment : Bytes → Bool
is_comment [] = true
is_comment (c ∷ cs) = c == b'#'

-- A line is passed over, refused, or read.
pub data Line (A : Type 0) : Type 0 where
  skipped : Line A
  malformed : Line A
  entry : Bytes → A → Line A

abbrev pub with_prefix : Bytes → Bytes → Option Rule → Line Rule
with_prefix id prefix none = malformed
with_prefix id prefix (some r) = entry id (record r { prefix = ite (prefix ≟ codes "*") [] prefix })

abbrev pub rule_of_fields : List Bytes → Line Rule
rule_of_fields (id ∷ prefix ∷ mode ∷ []) = with_prefix id prefix (parse_mode mode)
rule_of_fields other = malformed

unfoldable pub rule_line : Bytes → Line Rule
unfolding trim_space fields parse_mode
rule_line line =
    let text = trim_space line in if is_comment text then skipped else rule_of_fields (fields text)

abbrev pub token_of_fields : List Bytes → Line Bytes
token_of_fields (token ∷ id ∷ []) = entry token id
token_of_fields other = malformed

unfoldable pub token_line : Bytes → Line Bytes
unfolding trim_space fields
token_line line =
    let text = trim_space line in if is_comment text then skipped else token_of_fields (fields text)

-- The loop over the lines; none is an error.
abbrev pub with_rule :
    (GoMap Bytes (List Rule) → Option (GoMap Bytes (List Rule)))
    → GoMap Bytes (List Rule)
    → Line Rule
    → Option (GoMap Bytes (List Rule))
with_rule rest rules skipped = rest rules
with_rule rest rules malformed = none
with_rule rest rules (entry id r) = rest (put rules id (rules_of rules id ++ (r ∷ [])))

unfoldable pub load_rules : List Bytes → GoMap Bytes (List Rule) → Option (GoMap Bytes (List Rule))
unfolding rule_line rules_of
load_rules [] rules = some rules
load_rules (l ∷ ls) rules = with_rule (λ m. load_rules ls m) rules (rule_line l)

abbrev pub as_policy : Option (GoMap Bytes (List Rule)) → Option Authorizer
as_policy none = none
as_policy (some rules) = some (home_dir (prefix_policy rules))

unfoldable pub load_file : List Bytes → Bool → Option Authorizer
unfolding load_rules
load_file lines scanned = if scanned then as_policy (load_rules lines []) else none

abbrev pub with_token :
    (GoMap Bytes Bytes → Option (GoMap Bytes Bytes))
    → GoMap Bytes Bytes
    → Line Bytes
    → Option (GoMap Bytes Bytes)
with_token rest tokens skipped = rest tokens
with_token rest tokens malformed = none
with_token rest tokens (entry token id) = rest (put tokens token id)

unfoldable pub load_token_lines : List Bytes → GoMap Bytes Bytes → Option (GoMap Bytes Bytes)
unfolding token_line
load_token_lines [] tokens = some tokens
load_token_lines (l ∷ ls) tokens = with_token (λ m. load_token_lines ls m) tokens (token_line l)

unfoldable pub load_tokens : List Bytes → Bool → Option (GoMap Bytes Bytes)
unfolding load_token_lines
load_tokens lines scanned = if scanned then load_token_lines lines [] else none
