-- ===== src/GoMap/Sorted.antt =====
-- The sorted keys of a map are those of any other map with the same keys, whatever the order of
-- either: what `sortedKeys` of internal/raft/fsm/fsm.go is for.
use zuul.Shared.{Key, true, false, List, [], ◌∷◌, ite, ◌≡◌, refl, sym, ◌∙◌, arith}
use zuul.GoMap.{GoMap, get, has, insert_sorted, contains, sorted_keys}

module _ {K : Type 0} ⦃key : Key K⦄ where
  -- Every member lies above the key.
  abbrev pub IsAbove : K → List K → Type 0
  IsAbove x [] = Unit
  IsAbove x (y ∷ ys) = (key.lt x y ≡ true) × IsAbove x ys

  abbrev pub IsSorted : List K → Type 0
  IsSorted [] = Unit
  IsSorted (x ∷ xs) = IsAbove x xs × IsSorted xs

  IsAbove-trans : (x y : K) (ys : List K) → key.lt x y ≡ true → IsAbove y ys → IsAbove x ys
  IsAbove-trans x y [] h a = tt
  IsAbove-trans x y (z ∷ zs) h a = (key.lt_trans x y z h a.0, IsAbove-trans x y zs h a.1)

  IsAbove-insert :
      (x k : K) (ys : List K) → key.lt x k ≡ true → IsAbove x ys → IsAbove x (insert_sorted k ys)
  unfolding insert_sorted
  IsAbove-insert x k [] h a = (h, tt)
  IsAbove-insert x k (y ∷ ys) h a = ground (arith, IsAbove-insert x k ys)

  insert-IsSorted : (k : K) (xs : List K) → IsSorted xs → IsSorted (insert_sorted k xs)
  unfolding insert_sorted
  insert-IsSorted k [] s = (tt, tt)
  insert-IsSorted k (x ∷ xs) s =
      ground (arith, insert-IsSorted k xs, IsAbove-insert x k xs, IsAbove-trans k x xs)

  contains-insert :
      (k j : K) (xs : List K)
      → contains (insert_sorted k xs) j ≡ ite (key.dec k j) true (contains xs j)
  unfolding insert_sorted
  contains-insert k j [] = refl
  contains-insert k j (x ∷ xs) = ground (arith, contains-insert k j xs, key.lt_total k x)

  pub above_not_member : (x : K) (xs : List K) → IsAbove x xs → contains xs x ≡ false
  above_not_member x [] a = refl
  above_not_member x (y ∷ ys) a = ground (arith, above_not_member x ys, key.lt_irrefl x)

  member_above : (x k : K) (xs : List K) → IsAbove x xs → contains xs k ≡ true → key.lt x k ≡ true
  member_above x k [] a h = cc
  member_above x k (y ∷ ys) a h = ground (arith, member_above x k ys)

  -- Two sorted lists with the same members are one list.
  sorted_heads :
      (x y : K) (xs ys : List K)
      → IsSorted (x ∷ xs)
      → IsSorted (y ∷ ys)
      → ((k : K) → contains (x ∷ xs) k ≡ contains (y ∷ ys) k)
      → x ≡ y
  sorted_heads x y xs ys s t same = ground (
    arith,
    same x,
    same y,
    member_above y x ys,
    member_above x y xs,
    key.lt_trans x y x,
    key.lt_irrefl x,
    key.lt_trans y x y,
  )

  tail_members :
      (x y : K) (xs ys : List K)
      → x ≡ y
      → IsAbove x xs
      → IsAbove y ys
      → ((k : K) → contains (x ∷ xs) k ≡ contains (y ∷ ys) k)
      → (k : K) → contains xs k ≡ contains ys k
  tail_members x y xs ys e a b same k =
      ground (arith, same k, above_not_member x xs, above_not_member y ys)

  pub sorted_unique :
      (xs ys : List K)
      → IsSorted xs
      → IsSorted ys
      → ((k : K) → contains xs k ≡ contains ys k)
      → xs ≡ ys
  sorted_unique [] [] s t same = refl
  sorted_unique [] (y ∷ ys) s t same = ground (arith, same y)
  sorted_unique (x ∷ xs) [] s t same = ground (arith, same x)
  sorted_unique (x ∷ xs) (y ∷ ys) s t same =
      let e = sorted_heads x y xs ys s t same in
      cc (e, sorted_unique xs ys s.1 t.1 (tail_members x y xs ys e s.0 t.0 same))

module _ {K V : Type 0} ⦃key : Key K⦄ where
  pub sorted_keys-IsSorted : (m : GoMap K V) → IsSorted (sorted_keys m)
  unfolding sorted_keys
  sorted_keys-IsSorted [] = tt
  sorted_keys-IsSorted ((k, v) ∷ m) = insert-IsSorted k (sorted_keys m) (sorted_keys-IsSorted m)

  pub contains-sorted_keys : (m : GoMap K V) (k : K) → contains (sorted_keys m) k ≡ has m k
  unfolding sorted_keys get
  contains-sorted_keys [] k = refl
  contains-sorted_keys ((j, v) ∷ m) k =
      ground (arith, contains-insert j k (sorted_keys m), contains-sorted_keys m k)

module _ {K V W : Type 0} ⦃key : Key K⦄ where
  -- Two maps with the same keys have the same sorted keys, whatever the order of either and the type of
  -- their values.
  pub sorted_keys_unique :
      (m : GoMap K V) (n : GoMap K W)
      → ((k : K) → has m k ≡ has n k)
      → sorted_keys m ≡ sorted_keys n
  sorted_keys_unique m n same =
      sorted_unique (sorted_keys m) (sorted_keys n) (sorted_keys-IsSorted m)
        (sorted_keys-IsSorted n)
        λ k. contains-sorted_keys m k ∙ same k ∙ sym (contains-sorted_keys n k)
