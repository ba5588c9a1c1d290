-- ===== src/Router.antt =====
-- The routing of keys to shards: internal/cluster/router/router.go. The hash of a key is a parameter.
use zuul.Shared.{
  ℕ, zero, suc, Bytes, true, Option, none, some, List, [], ◌∷◌, length, ◌%◌, ◌<◌, ◌≡◌, refl, ap,
  subst, arith, nat_key,
}
use zuul.GoMap.{contains}

-- router.New; none is an error.
unfoldable pub new_router : List ℕ → Option (List ℕ)
new_router [] = none
new_router (s ∷ ss) = some (s ∷ ss)

-- `Get` of the immutable slice; out of range, where Go panics, is none.
unfoldable pub get_elem? : List ℕ → ℕ → Option ℕ
get_elem? [] i = none
get_elem? (s ∷ ss) zero = some s
get_elem? (s ∷ ss) (suc i) = get_elem? ss i

unfoldable pub shard_of : (Bytes → ℕ) → List ℕ → Bytes → Option ℕ
unfolding get_elem?
shard_of hash shards key = get_elem? shards (hash key % length shards)

get_elem?-contains :
    (ss : List ℕ) (i : ℕ)
    → i < length ss
    → (s : ℕ) × (get_elem? ss i ≡ some s) × (contains ss s ≡ true)
unfolding get_elem?
get_elem?-contains [] i h = absurd (omega (arith, h))
get_elem?-contains (s ∷ ss) zero h = (s, refl, ground arith)
get_elem?-contains (s ∷ ss) (suc i) h =
    let (t, e, c) = get_elem?-contains ss i (omega (arith, h)) in (t, e, ground (arith, c))

-- A router that `New` accepts routes every key, with no index out of range, to one of its shards.
pub new_router-routes :
    (hash : Bytes → ℕ) (shards router : List ℕ) (key : Bytes)
    → new_router shards ≡ some router
    → (s : ℕ) × (shard_of hash router key ≡ some s) × (contains shards s ≡ true)
unfolding new_router shard_of
new_router-routes hash [] router key e = ground (arith, e)
new_router-routes hash (s ∷ ss) router key e =
    subst (λ r. (t : ℕ) × (shard_of hash r key ≡ some t) × (contains (s ∷ ss) t ≡ true)) (ap held e)
      (get_elem?-contains (s ∷ ss) (hash key % suc (length ss)) (omega arith))
  where
    held : Option (List ℕ) → List ℕ
    held none = []
    held (some r) = r
