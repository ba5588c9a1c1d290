-- ===== src/Fsm/WellFormed/Loops.antt =====
-- The loops of `dropLease` in internal/raft/fsm/leases.go, over the held keys and over the queues.
use zuul.Shared.{
  Bytes, true, false, Option, none, some, List, [], ◌∷◌, ite, ◌≟◌, ◌≡◌, bytes_key, arith, refl, inl,
  inr, Option-cases, if_pos, subst, ◌∙◌,
}
use zuul.GoMap.{get, put, get-put, contains}
use zuul.GoMap.Sorted.{IsSorted, above_not_member}
use zuul.Fsm.Types.{Fsm, Lock, Waiter}
use zuul.Fsm.Locks.{remove_first, promote}
use zuul.Fsm.Leases.{release_held, release_all, dequeue, dequeue_all}
use zuul.Fsm.WellFormed.Defs.{Wf, waits, is_holder, is_queued, lock-Ok, lock_found}
use zuul.Fsm.WellFormed.Update.{Updates, Wf-update}
use zuul.Fsm.WellFormed.Promote.{Handover, promote-Handover}
use zuul.Fsm.WellFormed.Queue.{Left, remove_first-Left}

-- The client `x` holds nothing in `g`, and waits where it waited in `f`.
pub record Released (x : Bytes) (f g : Fsm) : Type 0 where
  pub wf : Wf x g
  pub held : (j : Bytes) → is_holder g x j ≡ false
  pub queue : (j : Bytes) → is_queued g x j ≡ is_queued f x j
  pub lease : get g.leases x ≡ get f.leases x

-- A key that the client holds is handed over.
release_held-Handover :
    (x name : Bytes) (f : Fsm)
    → Wf x f
    → is_holder f x name ≡ true
    → Handover x f (release_held f x (get f.locks name)) name
release_held-Handover x name f h holder = elim (Option-cases (get f.locks name)) [
  | inl e ↦ cc (e, holder)
  | inr (lk, e) ↦ found_Handover lk e (ground arith)
]
  where
    found_Handover :
        (lk : Lock)
        → get f.locks name ≡ some lk
        → lk.holder ≡ x
        → Handover x f (release_held f x (get f.locks name)) name
    found_Handover lk e k = rw e (
        unfold release_held in
        rw (if_pos _ k) (
          subst (Handover x f (promote f lk)) (lock-Ok h e).0
            (promote-Handover x f lk h (lock_found name h e) k)))

pub release_all-Released :
    (x : Bytes) (f : Fsm) (names : List Bytes)
    → IsSorted names
    → Wf x f
    → ((j : Bytes) → is_holder f x j ≡ contains names j)
    → Released x f (release_all f x names)
unfolding release_all
release_all-Released x f [] s h held = record {
  wf = h;
  held = held;
  queue = λ j. refl;
  lease = refl;
}
release_all-Released x f (name ∷ names) s h held =
    let out = release_held-Handover x name f h (held name ∙ ground arith) in
    let rest =
      release_all-Released x (release_held f x (get f.locks name)) names s.1 out.wf
        λ j. ground (arith, out.held j, held j, above_not_member name names s.0) in
    record {
      wf = rest.wf;
      held = rest.held;
      queue = λ j. rest.queue j ∙ out.queue j;
      lease = rest.lease ∙ out.lease;
    }

-- The client `x` waits nowhere in `g`; what it holds has not changed.
pub record Dequeued (x : Bytes) (f g : Fsm) : Type 0 where
  pub wf : Wf x g
  pub held : (j : Bytes) → is_holder g x j ≡ is_holder f x j
  pub queue : (j : Bytes) → is_queued g x j ≡ false

module _ (x name : Bytes) (f : Fsm) (lk : Lock) (h : Wf x f) (e : get f.locks name ≡ some lk)
    (r : List Waiter) (left : Left x lk.queue (some r)) where
  shortened : Fsm
  shortened = record f { locks = put f.locks lk.name (record lk { queue = r }) }

  shortened-Updates : Updates x f shortened name (some (record lk { queue = r })) x (get f.leases x)
  unfolding shortened
  shortened-Updates = record {
    locks = λ j. ground (arith, get-put f.locks lk.name (record lk { queue = r }) j, lock-Ok h e);
    leases = λ d. ground arith;
    lock_ok = ground (arith, lock-Ok h e, left.1 lk.holder, left.1 []);
    lease_ok = h.lease_ok x;
    held_here = λ k. absurd (k refl);
    waiting_here = λ k. absurd (k refl);
    held_elsewhere = λ j k l. absurd (l refl);
    waiting_elsewhere = λ j k l. absurd (l refl);
    held_others = λ d k l. ground arith;
    waiting_others = λ d k l. ground (arith, left.1 d);
  }

-- A round of the second loop takes the client out of one queue.
record LeftOne (x name : Bytes) (f g : Fsm) : Type 0 where
  pub wf : Wf x g
  pub held : (j : Bytes) → is_holder g x j ≡ is_holder f x j
  pub queue : (j : Bytes) → is_queued g x j ≡ ite (name ≟ j) false (is_queued f x j)

shortened-LeftOne :
    (x name : Bytes) (f : Fsm) (lk : Lock)
    → Wf x f
    → get f.locks name ≡ some lk
    → (r : List Waiter) → Left x lk.queue (some r)
    → LeftOne x name f (record f { locks = put f.locks lk.name (record lk { queue = r }) })
unfolding shortened
shortened-LeftOne x name f lk h e r left =
    let u = shortened-Updates x name f lk h e r left in
    record {
      wf = Wf-update h u;
      held = λ j. ground (arith, u.locks j);
      queue = λ j. ground (arith, u.locks j, left.1 x);
    }

dequeue-LeftOne :
    (x name : Bytes) (f : Fsm)
    → Wf x f
    → is_queued f x name ≡ true
    → LeftOne x name f (dequeue f x (get f.locks name))
dequeue-LeftOne x name f h waits = elim (Option-cases (get f.locks name)) [
  | inl e ↦ cc (e, waits)
  | inr (lk, e) ↦ rw e (
      found_LeftOne lk e (remove_first x lk.queue) refl
        (remove_first-Left x lk.queue (lock-Ok h e).2))
]
  where
    found_LeftOne :
        (lk : Lock)
        → get f.locks name ≡ some lk
        → (o : Option (List Waiter)) → remove_first x lk.queue ≡ o
        → Left x lk.queue o
        → LeftOne x name f (dequeue f x (some lk))
    found_LeftOne lk e none k left = absurd (cc (e, waits, left))
    found_LeftOne lk e (some r) k left =
        unfold dequeue in rw k (shortened-LeftOne x name f lk h e r left)

pub dequeue_all-Dequeued :
    (x : Bytes) (f : Fsm) (names : List Bytes)
    → IsSorted names
    → Wf x f
    → ((j : Bytes) → is_queued f x j ≡ contains names j)
    → Dequeued x f (dequeue_all f x names)
unfolding dequeue_all
dequeue_all-Dequeued x f [] s h q = record { wf = h; held = λ j. refl; queue = q }
dequeue_all-Dequeued x f (name ∷ names) s h q =
    let out = dequeue-LeftOne x name f h (q name ∙ ground arith) in
    let rest =
      dequeue_all-Dequeued x (dequeue f x (get f.locks name)) names s.1 out.wf
        λ j. ground (arith, out.queue j, q j, above_not_member name names s.0) in
    record { wf = rest.wf; held = λ j. rest.held j ∙ out.held j; queue = rest.queue }
