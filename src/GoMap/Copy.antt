-- ===== src/GoMap/Copy.antt =====
-- Copying a map out in the order of its sorted keys, and filling a map from a list: the loops of
-- `Snapshot` and `Restore` in internal/raft/fsm/fsm.go and internal/raft/meta/store.go.
use mathlib.Core.Option
use zuul.Shared.{
  Key, Option, none, some, List, [], ◌∷◌, if◌then◌else◌, ◌≡◌, refl, arith, Option-cases, inl, inr,
  ap, is_some,
}
use zuul.GoMap.{GoMap, get, has, put, get-put, get-empty, sorted_keys, contains}
use zuul.GoMap.Sorted.{contains-sorted_keys, sorted_keys_unique}

module _ {K V S : Type 0} ⦃key : Key K⦄ where
  -- The body of the loop: `rest` is what the later keys give.
  abbrev save_found : (K → V → S) → K → Option V → List S → List S
  save_found save k none rest = rest
  save_found save k (some v) rest = save k v ∷ rest

  -- Appends what `save` makes of the entry of each key.
  unfoldable pub save_all : (K → V → S) → GoMap K V → List K → List S
  save_all save m [] = []
  save_all save m (k ∷ ks) = save_found save k (get m k) (save_all save m ks)

  -- m[name(s)] = load(s) for each s.
  unfoldable pub load_all : (S → K) → (S → V) → GoMap K V → List S → GoMap K V
  load_all name load m [] = m
  load_all name load m (s ∷ ss) = load_all name load (put m (name s) (load s)) ss

  module _ (save : K → V → S) (name : S → K) (load : S → V) (m : GoMap K V)
      (named : (k : K) (v : V) → get m k ≡ some v → name (save k v) ≡ k) where
    abbrev copied : K → Option V
    copied k = Option.map (λ v. load (save k v)) (get m k)

    load-save_all :
        (base : GoMap K V) (ks : List K) (k : K)
        → get (load_all name load base (save_all save m ks)) k
          ≡ (if contains ks k then (if has m k then copied k else get base k) else get base k)
    unfolding load_all save_all
    load-save_all base [] k = refl
    load-save_all base (j ∷ ks) k = elim (Option-cases (get m j)) [
      | inl e ↦ rw e (ground (arith, load-save_all base ks k))
      | inr (v, e) ↦ rw e (
          ground (
            arith,
            named j v e,
            load-save_all (put base (name (save j v)) (load (save j v))) ks k,
            get-put base (name (save j v)) (load (save j v)) k,
          ))
    ]

    -- The copy of a whole map has an entry for exactly its keys.
    pub get-load-save :
        (k : K)
        → get (load_all name load [] (save_all save m (sorted_keys m))) k
          ≡ Option.map (λ v. load (save k v)) (get m k)
    get-load-save k =
        ground
          (arith, load-save_all [] (sorted_keys m) k, contains-sorted_keys m k, get-empty {V = V} k)

  -- Two maps with the same entries are copied out alike.
  pub save_all-same :
      (save : K → V → S) (m n : GoMap K V) (ks : List K)
      → ((k : K) → get m k ≡ get n k)
      → save_all save m ks ≡ save_all save n ks
  unfolding save_all
  save_all-same save m n [] same = refl
  save_all-same save m n (k ∷ ks) same =
      rw (same k) (ap (λ rest. save_found save k (get n k) rest) (save_all-same save m n ks same))

  pub save_unique :
      (save : K → V → S) (m n : GoMap K V)
      → ((k : K) → get m k ≡ get n k)
      → save_all save m (sorted_keys m) ≡ save_all save n (sorted_keys n)
  save_unique save m n same =
      rw (sorted_keys_unique m n (λ k. ap is_some (same k)))
        (save_all-same save m n (sorted_keys n) same)
