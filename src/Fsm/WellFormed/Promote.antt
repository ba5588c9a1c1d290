-- ===== src/Fsm/WellFormed/Promote.antt =====
-- Handing a key over, to the next waiter or to nobody.
use zuul.Shared.{
  Bytes, false, none, some, List, [], ◌∷◌, ite, ◌≟◌, ◌≡◌, ◌≢◌, bytes_key, arith, inc64, refl, inl,
  inr, Option-cases,
}
use zuul.GoMap.{get, put, delete, get-put, get-delete}
use zuul.Fsm.Types.{Fsm, Lock, Lease, Waiter}
use zuul.Fsm.Locks.{promote_to, promote_loop, promote}
use zuul.Fsm.WellFormed.Defs.{Wf, is_holder, is_queued, lease-client, lock-Ok}
use zuul.Fsm.WellFormed.Update.{Updates, Wf-update}
use zuul.Fsm.WellFormed.Acquire.{emit_locks, emit_leases}

-- The key `n` went from the client `x` to another one or to nobody; nothing else of `x` changed.
pub record Handover (x : Bytes) (f g : Fsm) (n : Bytes) : Type 0 where
  pub wf : Wf x g
  pub held : (j : Bytes) → is_holder g x j ≡ ite (n ≟ j) false (is_holder f x j)
  pub queue : (j : Bytes) → is_queued g x j ≡ is_queued f x j
  pub lease : get g.leases x ≡ get f.leases x

module _ (x : Bytes) (f : Fsm) (lk : Lock) (h : Wf x f) (found : get f.locks lk.name ≡ some lk)
    (holder : lk.holder ≡ x) where
  nobody-Updates :
      lk.queue ≡ [] → Updates x f (promote_loop f lk []) lk.name none x (get f.leases x)
  unfolding promote_loop
  nobody-Updates empty = record {
    locks = λ j. rw (emit_locks, get-delete);
    leases = λ d. rw emit_leases (ground arith);
    lock_ok = tt;
    lease_ok = h.lease_ok x;
    held_here = λ k. absurd (k refl);
    waiting_here = λ k. absurd (k refl);
    held_elsewhere = λ j k l. absurd (l refl);
    waiting_elsewhere = λ j k l. absurd (l refl);
    held_others = λ d k l. ground arith;
    waiting_others = λ d k l. ground arith;
  }

  module _ (w : Waiter) (q : List Waiter) (queue : lk.queue ≡ w ∷ q) (ls : Lease)
      (leased : get f.leases w.client_id ≡ some ls) where
    next-Updates :
        Updates x f
          (promote_to f lk w q ls)
          lk.name
          (some
            (record lk { holder = w.client_id; token = inc64 f.seq; value = w.value; queue = q }))
          w.client_id
          (some (record ls { held = put ls.held lk.name tt; waiting = delete ls.waiting lk.name }))
    unfolding promote_to
    next-Updates = record {
      locks = λ j. rw (emit_locks, get-put);
      leases = λ d. rw (emit_leases, get-put, (lease-client h leased).0);
      lock_ok = ground (arith, lock-Ok h found, lease-client h leased);
      lease_ok = lease-client h leased;
      held_here = λ k. ground (arith, get-put ls.held lk.name tt lk.name);
      waiting_here = λ k. ground (arith, get-delete ls.waiting lk.name lk.name, lock-Ok h found);
      held_elsewhere = λ j k _. ground (arith, get-put ls.held lk.name tt j);
      waiting_elsewhere = λ j k _. ground (arith, get-delete ls.waiting lk.name j);
      held_others = λ d k l. ground arith;
      waiting_others = λ d k l. ground arith;
    }

  nobody-Handover : lk.queue ≡ [] → Handover x f (promote_loop f lk []) lk.name
  nobody-Handover empty = record {
    wf = Wf-update h (nobody-Updates empty);
    held = λ j. ground (arith, (nobody-Updates empty).locks j);
    queue = λ j. ground (arith, (nobody-Updates empty).locks j, lock-Ok h found);
    lease = ground (arith, (nobody-Updates empty).leases x);
  }

  next-Handover :
      (w : Waiter) (q : List Waiter) (ls : Lease)
      → lk.queue ≡ w ∷ q
      → get f.leases w.client_id ≡ some ls
      → Handover x f (promote_to f lk w q ls) lk.name
  next-Handover w q ls queue leased =
      let u = next-Updates w q queue ls leased in
      record {
        wf = Wf-update h u;
        held = λ j. ground (arith, u.locks j, lock-Ok h found);
        queue = λ j. ground (arith, u.locks j, lock-Ok h found);
        lease = ground (arith, u.leases x, lock-Ok h found);
      }

  -- Whoever waits first has a lease, so the loop stops at the head of the queue.
  first_waiter_leased :
      (w : Waiter) (q : List Waiter) → lk.queue ≡ w ∷ q → get f.leases w.client_id ≢ none
  first_waiter_leased w q queue e =
      ground (arith, lock-Ok h found, h.waiting_index w.client_id lk.name)

  promote_loop-Handover :
      (queue : List Waiter) → lk.queue ≡ queue → Handover x f (promote_loop f lk queue) lk.name
  promote_loop-Handover [] e = nobody-Handover e
  promote_loop-Handover (w ∷ q) e = elim (Option-cases (get f.leases w.client_id)) [
    | inl none_left ↦ absurd (first_waiter_leased w q e none_left)
    | inr (ls, leased) ↦ unfold promote_loop in rw leased (next-Handover w q ls e leased)
  ]

  pub promote-Handover : Handover x f (promote f lk) lk.name
  unfolding promote
  promote-Handover = promote_loop-Handover lk.queue refl
