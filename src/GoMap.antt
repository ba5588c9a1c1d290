-- ===== src/GoMap.antt =====
-- Go's `map[K]V`: an association list whose order stands for the unspecified iteration order.
-- `sortedKeys` of internal/raft/fsm/fsm.go is the only way in which the state machine iterates.
pub mod Sorted
pub mod Copy
use zuul.Shared.{
  if◌then◌else◌, true, false, Key, Bool, Option, none, some, List, [], ◌∷◌, ite, is_some, ◌≡◌, refl,
  arith,
}

abbrev pub GoMap : Type 0 → Type 0 → Type 0
GoMap K V = List (K × V)

module _ {K V : Type 0} ⦃key : Key K⦄ where
  -- m[k], none where the key is absent
  unfoldable pub get : GoMap K V → K → Option V
  get [] k = none
  get ((j, v) ∷ m) k = ite (key.dec j k) (some v) (get m k)

  -- delete(m, k)
  unfoldable pub delete : GoMap K V → K → GoMap K V
  delete [] k = []
  delete ((j, v) ∷ m) k = let rest = delete m k in ite (key.dec j k) rest ((j, v) ∷ rest)

  -- m[k] = v
  unfoldable pub put : GoMap K V → K → V → GoMap K V
  unfolding delete
  put m k v = (k, v) ∷ delete m k

  abbrev pub has : GoMap K V → K → Bool
  has m k = is_some (get m k)

  pub get-empty : (k : K) → ◌≡◌ {A = Option V} (get [] k) none
  unfolding get
  get-empty k = refl

  pub get-delete : (m : GoMap K V) (k j : K) → get (delete m k) j ≡ ite (key.dec k j) none (get m j)
  unfolding get delete
  get-delete [] k j = ground arith
  get-delete ((i, v) ∷ m) k j = ground (arith, get-delete m k j)

  pub get-put :
      (m : GoMap K V) (k : K) (v : V) (j : K)
      → get (put m k v) j ≡ ite (key.dec k j) (some v) (get m j)
  unfolding get put
  get-put m k v j = ground (arith, get-delete m k j)

module _ {K : Type 0} ⦃key : Key K⦄ where
  -- slices.Sort on the keys, one at a time. A Go map has a key once, so a key met again is dropped.
  unfoldable pub insert_sorted : K → List K → List K
  insert_sorted k [] = k ∷ []
  insert_sorted k (x ∷ xs) =
      let rest = insert_sorted k xs in
      if key.lt k x then k ∷ x ∷ xs else if key.lt x k then x ∷ rest else x ∷ xs

  abbrev pub contains : List K → K → Bool
  contains [] k = false
  contains (x ∷ xs) k = ite (key.dec x k) true (contains xs k)

module _ {K V : Type 0} ⦃key : Key K⦄ where
  unfoldable pub sorted_keys : GoMap K V → List K
  unfolding insert_sorted
  sorted_keys [] = []
  sorted_keys ((k, v) ∷ m) = insert_sorted k (sorted_keys m)

  -- The keys in the order of the map.
  abbrev pub keys : GoMap K V → List K
  keys [] = []
  keys ((k, v) ∷ m) = k ∷ keys m

  pub contains-keys : (m : GoMap K V) (k : K) → contains (keys m) k ≡ has m k
  unfolding get
  contains-keys [] k = refl
  contains-keys ((j, v) ∷ m) k = ground (arith, contains-keys m k)
