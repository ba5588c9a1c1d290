-- ===== src/Fsm/Ownership/Keeps.antt =====
-- Steps after which only one client can have lost a key.
use zuul.Shared.{
  Bytes, Option, none, some, List, [], ◌∷◌, ◌≡◌, ◌≢◌, ◌⊎◌, inl, inr, refl, arith, bytes_key, ◌≟◌,
  ite, ite-elim, Option-cases, subst, sym, if_neg, inc64,
}
use zuul.GoMap.{get, put, get-put, get-delete, sorted_keys}
use zuul.Fsm.Types.{Fsm, Lock, Lease, Waiter}
use zuul.Fsm.Locks.{promote_to, promote_loop, promote, remove_first}
use zuul.Fsm.Leases.{release_held, release_all, dequeue, dequeue_all, drop_lease, waiting_now}
use zuul.Fsm.WellFormed.{emit_locks}
use zuul.Fsm.Tokens.{Named}
use zuul.Fsm.Tokens.Locks.{LockNamed-found}
use zuul.Fsm.Tokens.Leases.{dequeue-Named, release_held-Named, release_all-Named}

-- The lock is still there, under the same holder and token.
abbrev pub SameHold : Lock → Option Lock → Type 0
SameHold a none = ⊥
SameHold a (some b) = (a.holder ≡ b.holder) × (a.token ≡ b.token)

abbrev pub KeptHold : Bytes → Option Lock → Option Lock → Type 0
KeptHold x none p = Unit
KeptHold x (some a) p = (a.holder ≡ x) ⊎ SameHold a p

-- A key that was free, or held by `x`, may go to anybody.
pub free-KeptHold : (x : Bytes) (o p : Option Lock) → KeptHold x o none → KeptHold x o p
free-KeptHold x none p h = tt
free-KeptHold x (some a) p (inl e) = inl e
free-KeptHold x (some a) p (inr b) = absurd b

-- A key that `x` did not hold is held as before.
pub record Keeps (x : Bytes) (f g : Fsm) : Type 0 where
  pub at : (n : Bytes) → KeptHold x (get f.locks n) (get g.locks n)

KeptHold-refl : (x : Bytes) (o : Option Lock) → KeptHold x o o
KeptHold-refl x none = tt
KeptHold-refl x (some a) = inr (refl, refl)

KeptHold-trans :
    (x : Bytes) (o p q : Option Lock) → KeptHold x o p → KeptHold x p q → KeptHold x o q
KeptHold-trans x none p q h k = tt
KeptHold-trans x (some a) none q (inl e) k = inl e
KeptHold-trans x (some a) none q (inr s) k = absurd s
KeptHold-trans x (some a) (some b) none h k = ground arith
KeptHold-trans x (some a) (some b) (some c) h k = ground arith

pub Keeps-refl : (x : Bytes) (f : Fsm) → Keeps x f f
Keeps-refl x f = record { at = λ n. KeptHold-refl x (get f.locks n) }

pub Keeps-trans : (x : Bytes) (f g h : Fsm) → Keeps x f g → Keeps x g h → Keeps x f h
Keeps-trans x f g h a b = record { at = λ n. KeptHold-trans x _ _ _ (a.at n) (b.at n) }

pub Keeps-same : (x : Bytes) (f g : Fsm) → g.locks ≡ f.locks → Keeps x f g
Keeps-same x f g e = record { at = λ n. rw e (KeptHold-refl x (get f.locks n)) }

-- One key is written.
pub write-Keeps :
    (x : Bytes) (f g : Fsm) (name : Bytes) (o : Option Lock)
    → ((n : Bytes) → get g.locks n ≡ ite (name ≟ n) o (get f.locks n))
    → KeptHold x (get f.locks name) o
    → Keeps x f g
write-Keeps x f g name o locks h = record {
  at = λ n. rw (locks n) (
      ite-elim (KeptHold x (get f.locks n)) (name ≟ n) _ _
        (λ e. subst (λ j. KeptHold x (get f.locks j) o) e h)
        (λ _. KeptHold-refl x (get f.locks n)));
}

module _ (x : Bytes) (f : Fsm) (lk : Lock) (held : KeptHold x (get f.locks lk.name) none) where
  promote_loop-Keeps : (queue : List Waiter) → Keeps x f (promote_loop f lk queue)
  unfolding promote_loop
  promote_loop-Keeps [] = write-Keeps x f _ lk.name none (λ n. rw (emit_locks, get-delete)) held
  promote_loop-Keeps (w ∷ queue) = elim (Option-cases (get f.leases w.client_id)) [
    | inl e ↦ rw e (promote_loop-Keeps queue)
    | inr (ls, e) ↦ rw e (
        write-Keeps x f (promote_to f lk w queue ls) lk.name
          (some (record lk {
            holder = w.client_id;
            token = inc64 f.seq;
            value = w.value;
            queue = queue;
          }))
          (λ n. unfold promote_to in rw (emit_locks, get-put)) (free-KeptHold x _ _ held))
  ]

  pub promote-Keeps : Keeps x f (promote f lk)
  unfolding promote
  promote-Keeps = promote_loop-Keeps lk.queue

-- The lock found under a name is held by `x`.
pub held-free :
    (x : Bytes) (f : Fsm) (name : Bytes) (lk : Lock)
    → Named f
    → get f.locks name ≡ some lk
    → lk.holder ≡ x
    → KeptHold x (get f.locks lk.name) none
held-free x f name lk named e h = rw (LockNamed-found f name named e, e) (inl h)

release_held-Keeps :
    (x : Bytes) (f : Fsm) (name : Bytes) → Named f → Keeps x f (release_held f x (get f.locks name))
unfolding release_held
release_held-Keeps x f name named = elim (Option-cases (get f.locks name)) [
  | inl e ↦ rw e (Keeps-refl x f)
  | inr (lk, e) ↦ rw e (
      ite-elim (Keeps x f) (lk.holder ≟ x) _ _
        (λ h. promote-Keeps x f lk (held-free x f name lk named e h)) (λ _. Keeps-refl x f))
]

pub release_all-Keeps :
    (x : Bytes) (f : Fsm) (names : List Bytes) → Named f → Keeps x f (release_all f x names)
unfolding release_all
release_all-Keeps x f [] named = Keeps-refl x f
release_all-Keeps x f (name ∷ names) named =
    let g = release_held f x (get f.locks name) in
    Keeps-trans x f g _ (release_held-Keeps x f name named)
      (release_all-Keeps x g names (release_held-Named f x (get f.locks name) named))

-- A lock is written with the holder and token that it has.
pub SameHold-Keeps :
    (x : Bytes) (f g : Fsm) (name : Bytes) (lk lk' : Lock)
    → get f.locks name ≡ some lk
    → SameHold lk (some lk')
    → ((n : Bytes) → get g.locks n ≡ ite (name ≟ n) (some lk') (get f.locks n))
    → Keeps x f g
SameHold-Keeps x f g name lk lk' e s locks = write-Keeps x f g name (some lk') locks (rw e (inr s))

pub set_queue-Keeps :
    (x : Bytes) (f : Fsm) (name : Bytes) (lk : Lock) (q : List Waiter)
    → Named f
    → get f.locks name ≡ some lk
    → Keeps x f (record f { locks = put f.locks lk.name (record lk { queue = q }) })
set_queue-Keeps x f name lk q named e =
    SameHold-Keeps x f _ lk.name lk (record lk { queue = q })
      (subst (λ n. get f.locks n ≡ some lk) (sym (LockNamed-found f name named e)) e) (refl, refl)
      (λ n. get-put _ _ _ _)

dequeue-Keeps :
    (x y : Bytes) (f : Fsm) (name : Bytes) → Named f → Keeps x f (dequeue f y (get f.locks name))
unfolding dequeue
dequeue-Keeps x y f name named = elim (Option-cases (get f.locks name)) [
  | inl e ↦ rw e (Keeps-refl x f)
  | inr (lk, e) ↦ elim (Option-cases (remove_first y lk.queue)) [
    | inl k ↦ rw (e, k) (Keeps-refl x f)
    | inr (q, k) ↦ rw (e, k) (set_queue-Keeps x f name lk q named e)
  ]
]

pub dequeue_all-Keeps :
    (x y : Bytes) (f : Fsm) (names : List Bytes) → Named f → Keeps x f (dequeue_all f y names)
unfolding dequeue_all
dequeue_all-Keeps x y f [] named = Keeps-refl x f
dequeue_all-Keeps x y f (name ∷ names) named =
    let g = dequeue f y (get f.locks name) in
    Keeps-trans x f g _ (dequeue-Keeps x y f name named)
      (dequeue_all-Keeps x y g names (dequeue-Named f y name named))

pub drop_lease-Keeps : (f : Fsm) (ls : Lease) → Named f → Keeps ls.client_id f (drop_lease f ls)
unfolding drop_lease
drop_lease-Keeps f ls named =
    let x = ls.client_id in
    let g = release_all f x (sorted_keys ls.held) in
    let h = dequeue_all g x (waiting_now g ls) in
    Keeps-trans x f h _
      (Keeps-trans x f g h (release_all-Keeps x f (sorted_keys ls.held) named) (
        dequeue_all-Keeps x x g (waiting_now g ls)
          (release_all-Named f x (sorted_keys ls.held) named)))
      (Keeps-same x h _ refl)

promote_loop-elsewhere :
    (f : Fsm) (lk : Lock) (queue : List Waiter) (j : Bytes)
    → lk.name ≢ j
    → get (promote_loop f lk queue).locks j ≡ get f.locks j
unfolding promote_loop promote_to
promote_loop-elsewhere f lk [] j d = rw (emit_locks, get-delete) (if_neg (lk.name ≟ j) d _ _)
promote_loop-elsewhere f lk (w ∷ queue) j d = elim (Option-cases (get f.leases w.client_id)) [
  | inl e ↦ rw e (promote_loop-elsewhere f lk queue j d)
  | inr (ls, e) ↦ rw (e, emit_locks, get-put) (if_neg (lk.name ≟ j) d _ _)
]

-- Handing one key over leaves the other keys alone.
pub promote-elsewhere :
    (f : Fsm) (lk : Lock) (j : Bytes) → lk.name ≢ j → get (promote f lk).locks j ≡ get f.locks j
unfolding promote
promote-elsewhere f lk = promote_loop-elsewhere f lk lk.queue
