-- ===== src/Fsm/Snapshot/Indexes.antt =====
-- What rebuilding the leases' indexes from the locks adds to them.
use mathlib.Core.Option
use zuul.Shared.{
  Bytes, Bool, true, false, Option, none, some, List, [], ◌∷◌, ite, ◌≟◌, ◌&&◌, ◌||◌, ◌≡◌, refl,
  arith, bytes_key, Option-cases, inl, inr, if_neg, ◌∙◌,
}
use zuul.GoMap.{GoMap, get, has, get-put, contains}
use zuul.Fsm.Types.{Lock, Lease, Waiter}
use zuul.Fsm.Snapshot.{
  change_lease, add_held, add_waiting, index_holder, index_queue, index_found, index_locks,
}
use zuul.Fsm.WellFormed.{holds, waits, queued, held_by, waited_by, LockOk}
use zuul.Fsm.Snapshot.Copies.{bare}

-- The leases of `m'` are those of `m`, with the keys of `H` added to what they hold and those of `W`
-- to what they wait for.
pub record Adds (m m' : GoMap Bytes Lease) (H W : Bytes → Bytes → Bool) : Type 0 where
  pub same : (d : Bytes) → Option.map bare (get m' d) ≡ Option.map bare (get m d)
  pub exist : (d : Bytes) → has m' d ≡ has m d
  pub held : (d j : Bytes) → holds (get m' d) j ≡ (holds (get m d) j || (has m d && H d j))
  pub waiting : (d j : Bytes) → waits (get m' d) j ≡ (waits (get m d) j || (has m d && W d j))

abbrev pub nothing : Bytes → Bytes → Bool
nothing d j = false

Adds-refl : (m : GoMap Bytes Lease) → Adds m m nothing nothing
Adds-refl m = record {
  same = λ d. refl;
  exist = λ d. refl;
  held = λ d j. ground arith;
  waiting = λ d j. ground arith;
}

Adds-trans :
    (m m' m'' : GoMap Bytes Lease) (H W H' W' : Bytes → Bytes → Bool)
    → Adds m m' H W
    → Adds m' m'' H' W'
    → Adds m m'' (λ d j. H d j || H' d j) (λ d j. W d j || W' d j)
Adds-trans m m' m'' H W H' W' a b = record {
  same = λ d. b.same d ∙ a.same d;
  exist = λ d. b.exist d ∙ a.exist d;
  held = λ d j. ground (arith, a.held d j, b.held d j, a.exist d);
  waiting = λ d j. ground (arith, a.waiting d j, b.waiting d j, a.exist d);
}

-- One lease is changed, if it is there.
change_lease-get :
    (m : GoMap Bytes Lease) (c : Bytes) (change : Lease → Lease) (d : Bytes)
    → get (change_lease m c change) d ≡ ite (c ≟ d) (Option.map change (get m c)) (get m d)
unfolding change_lease
change_lease-get m c change d = elim (Option-cases (get m c)) [
  | inl e ↦ rw e (ground arith)
  | inr (l, e) ↦ rw e (get-put m c (change l) d)
]

module _ (m : GoMap Bytes Lease) (c n : Bytes) where
  add_held-Adds :
      Adds m
        (change_lease m c (add_held n))
        (λ d j. ite (n ≟ j) (ite (c ≟ d) true false) false)
        nothing
  add_held-Adds = record {
    same = λ d. ground (arith, change_lease-get m c (add_held n) d);
    exist = λ d. ground (arith, change_lease-get m c (add_held n) d);
    held = λ d j. elim (Option-cases (get m c)) [
      | inl e ↦ ground (arith, change_lease-get m c (add_held n) d)
      | inr (l, e) ↦ ground (arith, change_lease-get m c (add_held n) d, get-put l.held n tt j)
    ];
    waiting = λ d j. ground (arith, change_lease-get m c (add_held n) d);
  }

  add_waiting-Adds :
      Adds m
        (change_lease m c (add_waiting n))
        nothing
        (λ d j. ite (n ≟ j) (ite (c ≟ d) true false) false)
  add_waiting-Adds = record {
    same = λ d. ground (arith, change_lease-get m c (add_waiting n) d);
    exist = λ d. ground (arith, change_lease-get m c (add_waiting n) d);
    held = λ d j. ground (arith, change_lease-get m c (add_waiting n) d);
    waiting = λ d j. elim (Option-cases (get m c)) [
      | inl e ↦ ground (arith, change_lease-get m c (add_waiting n) d)
      | inr (l, e) ↦
          ground (arith, change_lease-get m c (add_waiting n) d, get-put l.waiting n tt j)
    ];
  }

-- The same additions, written otherwise.
Adds-as :
    (m m' : GoMap Bytes Lease) (H W H' W' : Bytes → Bytes → Bool)
    → ((d j : Bytes) → H d j ≡ H' d j)
    → ((d j : Bytes) → W d j ≡ W' d j)
    → Adds m m' H W
    → Adds m m' H' W'
Adds-as m m' H W H' W' p q a = record {
  same = a.same;
  exist = a.exist;
  held = λ d j. rw (← p d j) (a.held d j);
  waiting = λ d j. rw (← q d j) (a.waiting d j);
}

abbrev in_queue : Bytes → List Waiter → Bytes → Bytes → Bool
in_queue n q d j = ite (n ≟ j) (queued q d) false

index_queue-Adds :
    (n : Bytes) (q : List Waiter) (m : GoMap Bytes Lease)
    → Adds m (index_queue n q m) nothing (in_queue n q)
unfolding index_queue
index_queue-Adds n [] m =
    Adds-as m m nothing nothing nothing (in_queue n []) (λ d j. refl) (λ d j. ground arith)
      (Adds-refl m)
index_queue-Adds n (w ∷ q) m =
    let m' = change_lease m w.client_id (add_waiting n) in
    Adds-as m (index_queue n q m') _ _ nothing (in_queue n (w ∷ q)) (λ d j. refl)
      (λ d j. ground arith)
      (Adds-trans m m' (index_queue n q m') _ _ _ _ (add_waiting-Adds m w.client_id n)
        (index_queue-Adds n q m'))

abbrev holder_at : Bytes → Option Lock → Bytes → Bytes → Bool
holder_at n o d j = ite (n ≟ j) (held_by o d) false

abbrev waiter_at : Bytes → Option Lock → Bytes → Bytes → Bool
waiter_at n o d j = ite (n ≟ j) (waited_by o d) false

index_found-Adds :
    (n : Bytes) (o : Option Lock) (m : GoMap Bytes Lease)
    → LockOk n o
    → Adds m (index_found o m) (holder_at n o) (waiter_at n o)
unfolding index_found
index_found-Adds n none m ok =
    Adds-as m m nothing nothing _ _ (λ d j. ground arith) (λ d j. ground arith) (Adds-refl m)
index_found-Adds n (some lk) m ok =
    let m' = change_lease m lk.holder (add_held lk.name) in
    let start : index_holder lk m ≡ m' = unfold index_holder in if_neg (lk.holder ≟ []) ok.1 _ _ in
    rw start (
      Adds-as m (index_queue lk.name lk.queue m') _ _ (holder_at n (some lk))
        (waiter_at n (some lk)) (λ d j. ground (arith, ok.0)) (λ d j. ground (arith, ok.0))
        (Adds-trans m m' _ _ _ _ _ (add_held-Adds m lk.holder lk.name)
          (index_queue-Adds lk.name lk.queue m')))

-- What the locks of `ks` say of the holders, and of the waiters.
abbrev pub holders : GoMap Bytes Lock → List Bytes → Bytes → Bytes → Bool
holders locks ks d j = contains ks j && held_by (get locks j) d

abbrev pub waiters : GoMap Bytes Lock → List Bytes → Bytes → Bytes → Bool
waiters locks ks d j = contains ks j && waited_by (get locks j) d

pub index_locks-Adds :
    (locks : GoMap Bytes Lock) (ks : List Bytes) (m : GoMap Bytes Lease)
    → ((n : Bytes) → LockOk n (get locks n))
    → Adds m (index_locks locks ks m) (holders locks ks) (waiters locks ks)
unfolding index_locks
index_locks-Adds locks [] m ok =
    Adds-as m m nothing nothing _ _ (λ d j. refl) (λ d j. refl) (Adds-refl m)
index_locks-Adds locks (k ∷ ks) m ok =
    let m' = index_found (get locks k) m in
    Adds-as m (index_locks locks ks m') _ _ (holders locks (k ∷ ks)) (waiters locks (k ∷ ks))
      (λ d j. ground arith) (λ d j. ground arith)
      (Adds-trans m m' (index_locks locks ks m') _ _ _ _ (index_found-Adds k (get locks k) m (ok k))
        (index_locks-Adds locks ks m' ok))
