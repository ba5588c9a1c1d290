-- ===== src/Auth/Authz/Policy.antt =====
-- What the policies permit.
use zuul.Shared.{
  ℕ, Bytes, Bool, true, false, Option, none, some, List, [], ◌∷◌, if◌then◌else◌, ◌==◌, ◌≡◌, ◌≢◌,
  ◌⊎◌, ◌↔◌, inl, inr, refl, arith, bytes_key, Bool-cases, ◌||◌,
}
use zuul.GoMap.{GoMap}
use zuul.Auth.Keypath.{owner}
use zuul.Auth.Authz.{
  Op, read, write, Rule, Authorizer, allow_all, prefix_policy, home_dir, prefix_covers, grants,
  check_rules, rules_of, is_home, authorize, parse_rights, parse_mode, reads_or_writes,
}

-- Some rule of the list covers the key and grants the right.
abbrev pub Granted : List Rule → Bytes → Op → Type 0
Granted [] key op = ⊥
Granted (r ∷ rs) key op =
    ((prefix_covers r.prefix key ≡ true) × (grants r op ≡ true)) ⊎ Granted rs key op

check_rules-Granted :
    (rs : List Rule) (key : Bytes) (op : Op) → check_rules rs key op ≡ true → Granted rs key op
unfolding check_rules
check_rules-Granted [] key op h = cc h
check_rules-Granted (r ∷ rs) key op h = ground (arith, check_rules-Granted rs key op)

Granted-check_rules :
    (rs : List Rule) (key : Bytes) (op : Op) → Granted rs key op → check_rules rs key op ≡ true
unfolding check_rules
Granted-check_rules [] key op g = absurd g
Granted-check_rules (r ∷ rs) key op g = ground (arith, Granted-check_rules rs key op)

-- The identity is not empty and owns the key.
abbrev pub Owns : Bytes → Bytes → Type 0
Owns identity key = (identity ≢ []) × (owner key ≡ some identity)

is_home-Owns :
    (identity key : Bytes) (op : Op)
    → is_home identity key op ≡ true
    → (reads_or_writes op ≡ true) × Owns identity key
unfolding is_home
is_home-Owns identity key op h = ground arith

Owns-is_home :
    (identity key : Bytes) (op : Op)
    → (reads_or_writes op ≡ true) × Owns identity key
    → is_home identity key op ≡ true
unfolding is_home
Owns-is_home identity key op h = ground arith

-- What the policy that LoadFile builds permits: reads and writes of the identity's own keys, and
-- what a rule of the identity grants on a prefix that covers the key; nothing else.
pub home_policy-permits :
    (rules : GoMap Bytes (List Rule)) (identity key : Bytes) (op : Op)
    → (authorize (home_dir (prefix_policy rules)) identity key op ≡ true) ↔ (
        ((reads_or_writes op ≡ true) × Owns identity key)
        ⊎ Granted (rules_of rules identity) key op)
home_policy-permits rules identity key op = (permitted, permitting)
  where
    rs : List Rule
    rs = rules_of rules identity

    permitted :
        authorize (home_dir (prefix_policy rules)) identity key op ≡ true
        → ((reads_or_writes op ≡ true) × Owns identity key)
          ⊎ Granted (rules_of rules identity) key op
    permitted h = elim (Bool-cases (is_home identity key op)) [
      | inl e ↦ inl (is_home-Owns identity key op e)
      | inr e ↦
          inr (
            check_rules-Granted (rules_of rules identity) key op (unfold authorize in ground arith))
    ]

    permitting :
        ((reads_or_writes op ≡ true) × Owns identity key) ⊎ Granted (rules_of rules identity) key op
        → authorize (home_dir (prefix_policy rules)) identity key op ≡ true
    permitting (inl o) = unfold authorize in rw (Owns-is_home identity key op o)
    permitting (inr g) =
        unfold authorize in ground (arith, Granted-check_rules (rules_of rules identity) key op g)

write_rule_reads :
    (rs : List Rule) (key : Bytes)
    → check_rules rs key write ≡ true
    → check_rules rs key read ≡ true
unfolding check_rules
write_rule_reads [] key h = h
write_rule_reads (r ∷ rs) key h = ground (arith, write_rule_reads rs key)

-- Whoever may write a key may read it, under every policy.
pub write-read :
    (a : Authorizer) (identity key : Bytes)
    → authorize a identity key write ≡ true
    → authorize a identity key read ≡ true
unfolding authorize
write-read allow_all identity key h = refl
write-read (prefix_policy rules) identity key h = write_rule_reads (rules_of rules identity) key h
write-read (home_dir inner) identity key h =
    unfold is_home in ground (arith, write-read inner identity key)

-- Owning a key gives no right to administer: a home directory decides Admin, and any operation on a
-- key that the identity does not own, as the policy inside does.
pub home_dir-delegates :
    (inner : Authorizer) (identity key : Bytes) (op : Op)
    → (reads_or_writes op ≡ false) ⊎ (owner key ≢ some identity)
    → authorize (home_dir inner) identity key op ≡ authorize inner identity key op
unfolding authorize
home_dir-delegates inner identity key op h = elim (Bool-cases (is_home identity key op)) [
  | inl e ↦ ground (arith, is_home-Owns identity key op e)
  | inr e ↦ rw e
]

-- The character occurs.
abbrev pub has_char : ℕ → Bytes → Bool
has_char c [] = false
has_char c (d ∷ ds) = if d == c then true else has_char c ds

-- All characters are rights.
abbrev pub only_rights : Bytes → Bool
only_rights [] = true
only_rights (d ∷ ds) =
    if d == b'w' then only_rights ds else if d == b'a' then only_rights ds else false

abbrev pub rights_of : Rule → Bytes → Option Rule
rights_of r cs =
    if only_rights cs
    then some
        (record r { write = r.write || has_char b'w' cs; admin = r.admin || has_char b'a' cs })
    else none

parse_rights_lem : (r : Rule) (cs : Bytes) → parse_rights r cs ≡ rights_of r cs
unfolding parse_rights
parse_rights_lem r [] = ground arith
parse_rights_lem r (c ∷ cs) = ground (
  arith,
  parse_rights_lem (record r { write = true }) cs,
  parse_rights_lem (record r { admin = true }) cs,
)

-- A mode is accepted exactly if it is an "r" followed by "w"s and "a"s. It then gives the right to
-- write exactly if there is a "w", and to administer exactly if there is an "a".
pub parse_mode_lem :
    (c : ℕ) (cs : Bytes)
    → parse_mode (c ∷ cs) ≡ (
        if c == b'r'
        then if only_rights cs
          then some (record { prefix = []; write = has_char b'w' cs; admin = has_char b'a' cs })
          else none
        else none)
unfolding parse_mode
parse_mode_lem c cs =
    ground (arith, parse_rights_lem (record { prefix = []; write = false; admin = false }) cs)
