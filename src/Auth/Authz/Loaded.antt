-- ===== src/Auth/Authz/Loaded.antt =====
-- What a file of rules permits: internal/auth/authz/file.go with the policies of authz.go.
use zuul.Shared.{
  Bytes, true, Option, none, some, List, [], ◌∷◌, ◌++◌, ite, ◌≟◌, ◌≡◌, ◌⊎◌, ◌↔◌, refl, ap, ◌∙◌, sym,
  subst, arith, bytes_key,
}
use mathlib.Core.List.{append_assoc, append-nil}
use zuul.GoMap.{GoMap, get, put, get-put}
use zuul.Auth.Authz.{
  Op, Rule, Authorizer, prefix_policy, home_dir, rules_of, authorize, reads_or_writes,
}
use zuul.Auth.Authz.Policy.{Granted, Owns, home_policy-permits}
use zuul.Auth.Authz.File.{
  Line, skipped, malformed, entry, rule_line, with_rule, load_rules, load_file, as_policy,
}

-- The rules of the identity among the lines, in their order.
abbrev rule_for : Bytes → Line Rule → List Rule → List Rule
rule_for identity (entry id r) rest = ite (id ≟ identity) (r ∷ rest) rest
rule_for identity other rest = rest

unfoldable pub rules_in : List Bytes → Bytes → List Rule
rules_in [] identity = []
rules_in (l ∷ ls) identity = rule_for identity (rule_line l) (rules_in ls identity)

abbrev found : Option (List Rule) → List Rule
found none = []
found (some rs) = rs

rules_of-put :
    (rules : GoMap Bytes (List Rule)) (id identity : Bytes) (r : Rule)
    → rules_of (put rules id (rules_of rules id ++ (r ∷ []))) identity
      ≡ ite (id ≟ identity) (rules_of rules identity ++ (r ∷ [])) (rules_of rules identity)
unfolding rules_of
rules_of-put rules id identity r =
    ap found (get-put rules id (rules_of rules id ++ (r ∷ [])) identity) ∙ by_name (id ≟ identity)
  where
    by_name :
        (d : Dec (id ≡ identity))
        → found (ite d (some (rules_of rules id ++ (r ∷ []))) (get rules identity))
          ≡ ite d (rules_of rules identity ++ (r ∷ [])) (rules_of rules identity)
    by_name (yes p) = ap (λ k. rules_of rules k ++ (r ∷ [])) p
    by_name (no n) = refl

append_rule :
    (old rest : List Rule) (id identity : Bytes) (r : Rule)
    → ite (id ≟ identity) (old ++ (r ∷ [])) old ++ rest ≡ old ++ rule_for identity (entry id r) rest
append_rule old rest id identity r = by_name (id ≟ identity)
  where
    by_name :
        (d : Dec (id ≡ identity))
        → ite d (old ++ (r ∷ [])) old ++ rest ≡ old ++ ite d (r ∷ rest) rest
    by_name (yes p) = append_assoc old (r ∷ []) rest
    by_name (no n) = refl

with_rule-rule_for :
    (x : Line Rule) (next : GoMap Bytes (List Rule) → Option (GoMap Bytes (List Rule)))
    (rules out : GoMap Bytes (List Rule)) (identity : Bytes) (rest : List Rule)
    → ((m : GoMap Bytes (List Rule))
        → next m ≡ some out
        → rules_of out identity ≡ rules_of m identity ++ rest)
    → with_rule next rules x ≡ some out
    → rules_of out identity ≡ rules_of rules identity ++ rule_for identity x rest
with_rule-rule_for skipped next rules out identity rest h q = h rules q
with_rule-rule_for malformed next rules out identity rest h q = ground (arith, q)
with_rule-rule_for (entry id r) next rules out identity rest h q =
    h (put rules id (rules_of rules id ++ (r ∷ []))) q
    ∙ ap (λ rs. rs ++ rest) (rules_of-put rules id identity r)
    ∙ append_rule (rules_of rules identity) rest id identity r

from_some : GoMap Bytes (List Rule) → Option (GoMap Bytes (List Rule)) → GoMap Bytes (List Rule)
from_some m none = m
from_some m (some x) = x

load_rules-rules_in :
    (ls : List Bytes) (rules out : GoMap Bytes (List Rule)) (identity : Bytes)
    → load_rules ls rules ≡ some out
    → rules_of out identity ≡ rules_of rules identity ++ rules_in ls identity
unfolding load_rules rules_in from_some
load_rules-rules_in [] rules out identity e =
    ap (λ m. rules_of m identity) (sym (ap (from_some rules) e))
    ∙ sym (append-nil (rules_of rules identity))
load_rules-rules_in (l ∷ ls) rules out identity e =
    with_rule-rule_for (rule_line l) (λ m. load_rules ls m) rules out identity
      (rules_in ls identity) (λ m q. load_rules-rules_in ls m out identity q) e

-- What a file whose lines all load permits: reads and writes of the identity's own keys, and what a rule of a
-- line that names the identity grants on a prefix that covers the key; nothing else.
pub load_file-permits :
    (lines : List Bytes) (a : Authorizer) (identity key : Bytes) (op : Op)
    → load_file lines true ≡ some a
    → (authorize a identity key op ≡ true) ↔ (
        ((reads_or_writes op ≡ true) × Owns identity key)
        ⊎ Granted (rules_in lines identity) key op)
unfolding load_file rules_in get
load_file-permits lines a identity key op e = by_rules (load_rules lines []) refl e
  where
    Permits : List Rule → Authorizer → Type 0
    Permits rs p =
        (authorize p identity key op ≡ true)
        ↔ (((reads_or_writes op ≡ true) × Owns identity key) ⊎ Granted rs key op)

    policy_of : Authorizer → Option Authorizer → Authorizer
    policy_of p none = p
    policy_of p (some q) = q

    by_rules :
        (o : Option (GoMap Bytes (List Rule)))
        → load_rules lines [] ≡ o
        → as_policy o ≡ some a
        → Permits (rules_in lines identity) a
    by_rules none q p = ground (arith, p)
    by_rules (some rules) q p =
        subst (λ x. Permits (rules_in lines identity) x) (ap (policy_of a) p)
          (subst (λ rs. Permits rs (home_dir (prefix_policy rules)))
            (load_rules-rules_in lines [] rules identity q)
            (home_policy-permits rules identity key op))
