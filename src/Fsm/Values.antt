-- ===== src/Fsm/Values.antt =====
-- The values in a shard's locks and queues, under the operations of internal/raft/fsm.
use zuul.Shared.{
  ℕ, Bytes, Bool, false, Option, none, some, List, [], ◌∷◌, ◌++◌, All, ◌≟◌, ◌≢◌, subst, arith,
  bytes_key, ite-elim, if-elim, inl, inr, Option-cases, signed_ltb,
}
use mathlib.Core.Option
use zuul.GoMap.{GoMap, get, has, put, delete, get-put, get-delete, sorted_keys}
use zuul.Fsm.Types.{
  Fsm, Lock, Lease, Waiter, Command, CommandResult, acquire_lock, campaign, release_lock, resign,
  cancel_wait, proclaim, lease_grant, lease_keep_alive, lease_revoke, lease_expire, unset, new,
  emit,
}
use zuul.Fsm.Locks
use zuul.Fsm.Locks.{
  acquire, acquire_leased, grant, enqueue, entry_of, release, refusal, forget_held, forget_waiting,
  promote, promote_loop, promote_to, remove_first,
}
use zuul.Fsm.Leases
use zuul.Fsm.Leases.{release_held, release_all, dequeue, dequeue_all, waiting_now, drop_lease}
use zuul.Fsm.Apply.{apply, dispatch, run}

-- nil, or a value that is not empty: protobuf does not tell an empty value from none.
abbrev pub IsPlain : Option Bytes → Type 0
IsPlain v = v ≢ some []

abbrev pub PlainQueue : List Waiter → Type 0
PlainQueue q = All (λ w. IsPlain w.value) q

abbrev pub PlainLock : Option Lock → Type 0
PlainLock none = Unit
PlainLock (some lk) = IsPlain lk.value × PlainQueue lk.queue

abbrev PlainLocks : GoMap Bytes Lock → Type 0
PlainLocks m = (n : Bytes) → PlainLock (get m n)

-- No value in the shard is empty without being nil.
abbrev pub HasPlain : Fsm → Type 0
HasPlain f = PlainLocks f.locks

-- The command publishes no such value.
abbrev pub PublishesPlain : Command → Type 0
PublishesPlain (campaign n c v) = IsPlain v
PublishesPlain (proclaim n c t v) = IsPlain v
PublishesPlain c = Unit

pub new-HasPlain : (notifier : Bool) → HasPlain (new notifier)
unfolding new get
new-HasPlain notifier n = tt

none-IsPlain : IsPlain none
none-IsPlain e = ground (arith, e)

emit-HasPlain :
    (f : Fsm) (n h : Bytes) (t : ℕ) (v : Option Bytes) → HasPlain f → HasPlain (emit f n h t v)
unfolding emit
emit-HasPlain f n h t v p = if-elim HasPlain f.notifier _ _ (λ _. p) (λ _. p)

put-PlainLocks :
    (m : GoMap Bytes Lock) (k : Bytes) (lk : Lock)
    → PlainLock (some lk)
    → PlainLocks m
    → PlainLocks (put m k lk)
put-PlainLocks m k lk q p n =
    rw (get-put m k lk n) (ite-elim PlainLock (k ≟ n) _ _ (λ _. q) (λ _. p n))

delete-PlainLocks : (m : GoMap Bytes Lock) (k : Bytes) → PlainLocks m → PlainLocks (delete m k)
delete-PlainLocks m k p n =
    rw (get-delete m k n) (ite-elim PlainLock (k ≟ n) _ _ (λ _. tt) (λ _. p n))

append-PlainQueue :
    (q : List Waiter) (w : Waiter) → PlainQueue q → IsPlain w.value → PlainQueue (q ++ (w ∷ []))
append-PlainQueue [] w h p = (p, tt)
append-PlainQueue (x ∷ q) w h p = (h.0, append-PlainQueue q w h.1 p)

abbrev PlainResult : Option (List Waiter) → Type 0
PlainResult none = Unit
PlainResult (some q) = PlainQueue q

kept-PlainResult :
    (w : Waiter) (o : Option (List Waiter))
    → IsPlain w.value
    → PlainResult o
    → PlainResult (Option.map (λ r. w ∷ r) o)
kept-PlainResult w none p h = tt
kept-PlainResult w (some q) p h = (p, h)

remove_first-PlainResult :
    (client : Bytes) (q : List Waiter) → PlainQueue q → PlainResult (remove_first client q)
unfolding remove_first
remove_first-PlainResult client [] h = tt
remove_first-PlainResult client (w ∷ q) h =
    ite-elim PlainResult (w.client_id ≟ client) _ _ (λ _. h.1)
      (λ _. kept-PlainResult w _ h.0 (remove_first-PlainResult client q h.1))

entry_of-queue : (name : Bytes) (o : Option Lock) → PlainLock o → PlainQueue (entry_of name o).queue
unfolding entry_of
entry_of-queue name none h = tt
entry_of-queue name (some lk) h = h.1

grant-HasPlain :
    (f : Fsm) (name : Bytes) (ls : Lease) (v : Option Bytes)
    → IsPlain v
    → HasPlain f
    → HasPlain (grant f name ls v).0
unfolding grant
grant-HasPlain f name ls v p h =
    emit-HasPlain _ name ls.client_id _ v
      (put-PlainLocks f.locks name _ (p, entry_of-queue name (get f.locks name) (h name)) h)

enqueue-HasPlain :
    (f : Fsm) (name client : Bytes) (v : Option Bytes) (ls : Lease) (lk : Lock)
    → IsPlain v
    → PlainLock (some lk)
    → HasPlain f
    → HasPlain (enqueue f name client v ls lk).0
unfolding enqueue
enqueue-HasPlain f name client v ls lk p q h =
    if-elim {A = Fsm × CommandResult} (λ r. HasPlain r.0) (has ls.waiting name) _ _ (λ _. h)
      (λ _. put-PlainLocks f.locks lk.name _ (q.0, append-PlainQueue lk.queue _ q.1 p) h)

acquire_leased-HasPlain :
    (f : Fsm) (name client : Bytes) (v : Option Bytes) (try : Bool) (ls : Lease) (o : Option Lock)
    → IsPlain v
    → PlainLock o
    → HasPlain f
    → HasPlain (acquire_leased f name client v try ls o).0
unfolding acquire_leased
acquire_leased-HasPlain f name client v try ls none p q h = grant-HasPlain f name ls v p h
acquire_leased-HasPlain f name client v try ls (some lk) p q h =
    let P : Fsm × CommandResult → Type 0 = λ r. HasPlain r.0 in
    ite-elim P (lk.holder ≟ []) _ _ (λ _. grant-HasPlain f name ls v p h)
      (λ _.
        ite-elim P (lk.holder ≟ client) _ _ (λ _. h)
          (λ _. if-elim P try _ _ (λ _. h) (λ _. enqueue-HasPlain f name client v ls lk p q h)))

acquire-HasPlain :
    (f : Fsm) (name client : Bytes) (v : Option Bytes) (try : Bool)
    → IsPlain v
    → HasPlain f
    → HasPlain (acquire f name client v try).0
unfolding acquire
acquire-HasPlain f name client v try p h = elim (Option-cases (get f.leases client)) [
  | inl e ↦ rw e h
  | inr (ls, e) ↦
      rw e (acquire_leased-HasPlain f name client v try ls (get f.locks name) p (h name) h)
]

promote_loop-HasPlain :
    (f : Fsm) (lk : Lock) (q : List Waiter)
    → PlainQueue q
    → HasPlain f
    → HasPlain (promote_loop f lk q)
unfolding promote_loop promote_to
promote_loop-HasPlain f lk [] r h =
    emit-HasPlain _ lk.name [] 0 none (delete-PlainLocks f.locks lk.name h)
promote_loop-HasPlain f lk (w ∷ q) r h = elim (Option-cases (get f.leases w.client_id)) [
  | inl e ↦ rw e (promote_loop-HasPlain f lk q r.1 h)
  | inr (ls, e) ↦ rw e (
      emit-HasPlain _ lk.name w.client_id _ w.value (put-PlainLocks f.locks lk.name _ (r.0, r.1) h))
]

forget_held-HasPlain :
    (f : Fsm) (name : Bytes) (o : Option Lease) → HasPlain f → HasPlain (forget_held f name o)
unfolding forget_held
forget_held-HasPlain f name none h = h
forget_held-HasPlain f name (some ls) h = h

forget_waiting-HasPlain :
    (f : Fsm) (name : Bytes) (o : Option Lease) → HasPlain f → HasPlain (forget_waiting f name o)
unfolding forget_waiting
forget_waiting-HasPlain f name none h = h
forget_waiting-HasPlain f name (some ls) h = h

release-HasPlain :
    (f : Fsm) (name client : Bytes) (token : ℕ)
    → HasPlain f
    → HasPlain (release f name client token).0
unfolding release promote
release-HasPlain f name client token h =
    elim (Option-cases (refusal f name client token (get f.locks name))) [
      | inr (r, e) ↦ rw e h
      | inl e ↦ rw e (elim (Option-cases (get f.locks name)) [
        | inl q ↦ rw q h
        | inr (lk, q) ↦
            let p : PlainLock (some lk) = subst PlainLock q (h name) in
            rw q (
              promote_loop-HasPlain _ lk lk.queue p.1
                (forget_held-HasPlain f name (get f.leases client) h))
      ])
    ]

proclaim-HasPlain :
    (f : Fsm) (name client : Bytes) (token : ℕ) (v : Option Bytes)
    → IsPlain v
    → HasPlain f
    → HasPlain (Locks.proclaim f name client token v).0
unfolding Locks.proclaim
proclaim-HasPlain f name client token v p h =
    elim (Option-cases (refusal f name client token (get f.locks name))) [
      | inr (r, e) ↦ rw e h
      | inl e ↦ rw e (elim (Option-cases (get f.locks name)) [
        | inl q ↦ rw q h
        | inr (lk, q) ↦
            let k : PlainLock (some lk) = subst PlainLock q (h name) in
            rw q (
              emit-HasPlain _ name lk.holder lk.token v
                (put-PlainLocks f.locks lk.name _ (p, k.1) h))
      ])
    ]

cancel_wait-HasPlain :
    (f : Fsm) (name client : Bytes) → HasPlain f → HasPlain (Locks.cancel_wait f name client).0
unfolding Locks.cancel_wait
cancel_wait-HasPlain f name client h = elim (Option-cases (get f.locks name)) [
  | inl q ↦ rw q h
  | inr (lk, q) ↦
      let k : PlainLock (some lk) = subst PlainLock q (h name) in
      let r = remove_first-PlainResult client lk.queue k.1 in
      rw q (elim (Option-cases (remove_first client lk.queue)) [
        | inl e ↦ rw e h
        | inr (queue, e) ↦ rw e (
            forget_waiting-HasPlain _ name (get f.leases client)
              (put-PlainLocks f.locks lk.name _ (k.0, subst PlainResult e r) h))
      ])
]

release_all-HasPlain :
    (names : List Bytes) (f : Fsm) (client : Bytes)
    → HasPlain f
    → HasPlain (release_all f client names)
unfolding release_all release_held promote
release_all-HasPlain [] f client h = h
release_all-HasPlain (n ∷ ns) f client h =
    release_all-HasPlain ns _ client (one (get f.locks n) (h n))
  where
    one : (o : Option Lock) → PlainLock o → HasPlain (release_held f client o)
    one none p = h
    one (some lk) p =
        ite-elim HasPlain (lk.holder ≟ client) _ _ (λ _. promote_loop-HasPlain f lk lk.queue p.1 h)
          (λ _. h)

dequeue_all-HasPlain :
    (names : List Bytes) (f : Fsm) (client : Bytes)
    → HasPlain f
    → HasPlain (dequeue_all f client names)
unfolding dequeue_all dequeue
dequeue_all-HasPlain [] f client h = h
dequeue_all-HasPlain (n ∷ ns) f client h =
    dequeue_all-HasPlain ns _ client (one (get f.locks n) (h n))
  where
    one : (o : Option Lock) → PlainLock o → HasPlain (dequeue f client o)
    one none p = h
    one (some lk) p = elim (Option-cases (remove_first client lk.queue)) [
      | inl e ↦ rw e h
      | inr (q, e) ↦ rw e (
          put-PlainLocks f.locks lk.name _
            (p.0, subst PlainResult e (remove_first-PlainResult client lk.queue p.1)) h)
    ]

drop_lease-HasPlain : (f : Fsm) (ls : Lease) → HasPlain f → HasPlain (drop_lease f ls)
unfolding drop_lease
drop_lease-HasPlain f ls h =
    let g = release_all f ls.client_id (sorted_keys ls.held) in
    dequeue_all-HasPlain (waiting_now g ls) g ls.client_id
      (release_all-HasPlain (sorted_keys ls.held) f ls.client_id h)

apply-HasPlain :
    (f : Fsm) (c : Command) → PublishesPlain c → HasPlain f → HasPlain (apply f (some c)).0
unfolding apply dispatch Leases.lease_grant Leases.lease_keep_alive Leases.lease_revoke
    Leases.lease_expire
apply-HasPlain f (acquire_lock n c t) p h = acquire-HasPlain _ n c none t none-IsPlain h
apply-HasPlain f (campaign n c v) p h = acquire-HasPlain _ n c v false p h
apply-HasPlain f (release_lock n c t) p h = release-HasPlain _ n c t h
apply-HasPlain f (resign n c t) p h = release-HasPlain _ n c t h
apply-HasPlain f (cancel_wait n c) p h = cancel_wait-HasPlain _ n c h
apply-HasPlain f (proclaim n c t v) p h = proclaim-HasPlain _ n c t v p h
apply-HasPlain f (lease_grant c t n) p h = h
apply-HasPlain f (lease_keep_alive c n) p h = elim (Option-cases (get f.leases c)) [
  | inl e ↦ rw e h
  | inr (ls, e) ↦ rw e h
]
apply-HasPlain f (lease_revoke c) p h = elim (Option-cases (get f.leases c)) [
  | inl e ↦ rw e h
  | inr (ls, e) ↦ rw e (drop_lease-HasPlain _ ls h)
]
apply-HasPlain f (lease_expire c n) p h = elim (Option-cases (get f.leases c)) [
  | inl e ↦ rw e h
  | inr (ls, e) ↦ rw e (
      if-elim {A = Fsm × CommandResult} (λ r. HasPlain r.0) (signed_ltb n ls.expire_at) _ _ (λ _. h)
        (λ _. drop_lease-HasPlain _ ls h))
]
apply-HasPlain f unset p h = h

-- In a shard that starts without one, and under commands that publish none, no value is ever empty without being
-- nil.
pub run-HasPlain :
    (f : Fsm) (log : List Command) → All PublishesPlain log → HasPlain f → HasPlain (run f log)
unfolding run
run-HasPlain f [] p h = h
run-HasPlain f (c ∷ cs) p h = run-HasPlain (apply f (some c)).0 cs p.1 (apply-HasPlain f c p.0 h)
