-- ===== src/Server/Confined.antt =====
-- Browsing shows a caller no record that it may not read: the authorization of internal/server/browse.go by
-- the policies of internal/auth/authz/authz.go.
use zuul.Shared.{
  ℕ, Bytes, true, false, not, Option, none, some, List, [], ◌∷◌, ◌++◌, map, ◌≟◌, ◌≡◌, ◌≢◌, refl,
  arith, All, if-elim, ite-elim, inl, inr, Option-cases, bytes_key, bytes_lt,
}
use zuul.GoMap.{get, has, sorted_keys}
use zuul.Auth.Keypath.{has_prefix, validate, ends_with_slash, trim_slash}
use zuul.Auth.Keypath.Canonical.{owner-none}
use zuul.Auth.Keypath.Nested.{has_prefix_trans, has_prefix-owner}
use zuul.Auth.Authz.{
  Authorizer, allow_all, prefix_policy, home_dir, Rule, authorize, read, check_rules, rules_of,
  is_home, prefix_covers, grants, owned_by,
}
use zuul.Fsm.Types.{Fsm, Lock}
use zuul.Fsm.Queries.{LockSummary, LockSummaries, list_locks, list_among, listed, summary}
use zuul.Server.Browse.{
  ListReply, records, list_refused, Record, list_records, gather, gathered, sort_summaries,
  insert_summary, summary_to_record, auth_key,
}
use zuul.Server.Browse

-- No rule of the identity has a prefix that ends in two slashes.
abbrev pub Tidy : Authorizer → Bytes → Type 0
Tidy allow_all identity = Unit
Tidy (prefix_policy rules) identity =
    All (λ (r : Rule). ends_with_slash (trim_slash r.prefix) ≡ false) (rules_of rules identity)
Tidy (home_dir inner) identity = Tidy inner identity

check_rules-read :
    (rs : List Rule) (p n : Bytes)
    → All (λ (r : Rule). ends_with_slash (trim_slash r.prefix) ≡ false) rs
    → p ≢ []
    → has_prefix p n ≡ true
    → check_rules rs p read ≡ true
    → check_rules rs n read ≡ true
unfolding check_rules prefix_covers grants
check_rules-read [] p n t ne h k = k
check_rules-read (r ∷ rs) p n t ne h k =
    ground (arith, ne, h, k, has_prefix_trans r.prefix p n t.0 ne, check_rules-read rs p n t.1 ne h)

is_home-read :
    (identity p n : Bytes)
    → validate n ≡ none
    → has_prefix p n ≡ true
    → is_home identity p read ≡ true
    → is_home identity n read ≡ true
unfolding is_home owned_by
is_home-read identity p n u h k = elim (Option-cases (validate p)) [
  | inl v ↦ rw (has_prefix-owner p n v u h) k
  | inr (x, v) ↦ ground (arith, k, owner-none p (λ e. ground (arith, e, v)))
]

-- Who may read a prefix may read the canonical paths that it covers.
covers-read :
    (a : Authorizer) (identity p n : Bytes)
    → Tidy a identity
    → p ≢ []
    → validate n ≡ none
    → has_prefix p n ≡ true
    → authorize a identity p read ≡ true
    → authorize a identity n read ≡ true
unfolding authorize
covers-read allow_all identity p n t ne u h k = refl
covers-read (prefix_policy rules) identity p n t ne u h k =
    check_rules-read (rules_of rules identity) p n t ne h k
covers-read (home_dir inner) identity p n t ne u h k =
    ground (arith, k, is_home-read identity p n u h, covers-read inner identity p n t ne u h)

All-append : {A : Type 0} (P : A → Type 0) (xs ys : List A) → All P xs → All P ys → All P (xs ++ ys)
All-append P [] ys a b = b
All-append P (x ∷ xs) ys a b = (a.0, All-append P xs ys a.1 b)

insert-All :
    (P : LockSummary → Type 0) (s : LockSummary) (ss : List LockSummary)
    → P s
    → All P ss
    → All P (insert_summary s ss)
unfolding insert_summary
insert-All P s [] p a = (p, tt)
insert-All P s (t ∷ ts) p a =
    if-elim (All P) (bytes_lt t.name s.name) _ _ (λ _. (a.0, insert-All P s ts p a.1)) (λ _. (p, a))

sort-All : (P : LockSummary → Type 0) (ss : List LockSummary) → All P ss → All P (sort_summaries ss)
unfolding sort_summaries
sort-All P [] a = tt
sort-All P (s ∷ ss) a = insert-All P s (sort_summaries ss) a.0 (sort-All P ss a.1)

map-All :
    (P : LockSummary → Type 0) (Q : Record → Type 0) (ss : List LockSummary)
    → ((s : LockSummary) → P s → Q (summary_to_record s))
    → All P ss
    → All Q (map summary_to_record ss)
map-All P Q [] f a = tt
map-All P Q (s ∷ ss) f a = (f s a.0, map-All P Q ss f a.1)

module _ (f : Fsm) (prefix : Bytes) (P : Bytes → Type 0)
    (permits : (n : Bytes) → has f.locks n ≡ true → has_prefix prefix n ≡ true → P n) where
  listed-All :
      (n : Bytes) (o : Option Lock) (rest : List LockSummary)
      → get f.locks n ≡ o
      → All (λ (s : LockSummary). P s.name) rest
      → All (λ (s : LockSummary). P s.name) (listed prefix n o rest)
  unfolding listed summary
  listed-All n none rest e a = a
  listed-All n (some lk) rest e a =
      ite-elim (All (λ (s : LockSummary). P s.name)) (lk.holder ≟ []) rest _ (λ _. a)
        (λ _.
          if-elim (All (λ (s : LockSummary). P s.name)) (not (has_prefix prefix n)) rest _ (λ _. a)
            (λ k. (permits n (ground (arith, e)) (ground (arith, k)), a)))

  list_among-All : (ns : List Bytes) → All (λ (s : LockSummary). P s.name) (list_among f prefix ns)
  unfolding list_among
  list_among-All [] = tt
  list_among-All (n ∷ ns) =
      listed-All n (get f.locks n) (list_among f prefix ns) refl (list_among-All ns)

-- Every record of the reply is of a key that the identity may read.
abbrev pub Readable : Authorizer → Bytes → ListReply → Type 0
Readable policy identity (records rs namespaces) =
    All (λ (r : Record). authorize policy identity r.key read ≡ true) rs
Readable policy identity (list_refused e) = Unit

-- A reader of the local replicas.
abbrev pub reads : (ℕ → Fsm) → ℕ → Bytes → Option LockSummaries
reads w s p = some (list_locks (w s) p)

module _ (policy : Authorizer) (identity prefix : Bytes) (tidy : Tidy policy identity) (w : ℕ → Fsm)
    (shards : List ℕ)
    (canonical : (s : ℕ) (n : Bytes) → has (w s).locks n ≡ true → validate n ≡ none)
    (ne : prefix ≢ []) where
  abbrev MayRead : LockSummary → Type 0
  MayRead s = authorize policy identity s.name read ≡ true

  Gathered : Option (List LockSummary) → Type 0
  Gathered none = Unit
  Gathered (some ss) = All MayRead ss

  gathered-All :
      (xs : List LockSummary) (revision : ℕ) (o : Option (List LockSummary))
      → All MayRead xs
      → Gathered o
      → Gathered (gathered (some (record { locks = xs; revision = revision })) o)
  unfolding Gathered
  gathered-All xs revision none a g = tt
  gathered-All xs revision (some ss) a g = All-append MayRead xs ss a g

  gather-All :
      (ss : List ℕ)
      → authorize policy identity prefix read ≡ true
      → Gathered (gather (reads w) prefix ss)
  unfolding gather list_locks Gathered
  gather-All [] k = tt
  gather-All (s ∷ ss) k =
      gathered-All (list_among (w s) prefix (sorted_keys (w s).locks)) (w s).revision
        (gather (reads w) prefix ss)
        (list_among-All (w s) prefix (λ n. authorize policy identity n read ≡ true)
          (λ n i h. covers-read policy identity prefix n tidy ne (canonical s n i) h k)
          (sorted_keys (w s).locks))
        (gather-All ss k)

  listed-Readable :
      (o : Option (List LockSummary)) → Gathered o → Readable policy identity (Browse.listed o)
  unfolding Gathered summary_to_record
  listed-Readable none g = tt
  listed-Readable (some ss) g =
      map-All MayRead (λ (r : Record). authorize policy identity r.key read ≡ true)
        (sort_summaries ss) (λ s m. m) (sort-All MayRead ss g)

  -- Where the keys of the shards are canonical paths, and no rule of the identity has a prefix that ends in two
  -- slashes, listing the records under a prefix that is not empty shows the identity only records of
  -- keys that it may read.
  pub list_records-Readable :
      Readable policy identity (list_records policy (reads w) shards identity prefix)
  unfolding list_records auth_key
  list_records-Readable =
      if-elim (Readable policy identity) (authorize policy identity (auth_key prefix) read) _ _
        (λ k.
          listed-Readable (gather (reads w) prefix shards)
            (gather-All shards (ground (arith, k, ne))))
        (λ _. tt)
