-- ===== src/Fsm/WellFormed/Update.antt =====
-- A step that changes one lock and one lease keeps the shard well formed if the two agree again.
use zuul.Shared.{Bytes, Option, ite, ◌≟◌, ◌≡◌, ◌≢◌, bytes_key, arith, if_pos, if_neg, subst}
use zuul.GoMap.{get}
use zuul.Fsm.Types.{Fsm, Lock, Lease}
use zuul.Fsm.WellFormed.Defs.{
  Wf, LockOk, LeaseOk, held_by, waited_by, holds, waits, is_holder, is_queued, in_held, in_waiting,
}

-- The lock `n` becomes `lock`, and the lease of `c` becomes `lease`.
pub record Updates (x : Bytes) (f g : Fsm) (n : Bytes) (lock : Option Lock) (c : Bytes)
    (lease : Option Lease) : Type 0 where
  pub locks : (j : Bytes) → get g.locks j ≡ ite (n ≟ j) lock (get f.locks j)
  pub leases : (d : Bytes) → get g.leases d ≡ ite (c ≟ d) lease (get f.leases d)
  pub lock_ok : LockOk n lock
  pub lease_ok : LeaseOk c lease
  pub held_here : c ≢ x → holds lease n ≡ held_by lock c
  pub waiting_here : c ≢ x → waits lease n ≡ waited_by lock c
  pub held_elsewhere : (j : Bytes) → n ≢ j → c ≢ x → holds lease j ≡ in_held f c j
  pub waiting_elsewhere : (j : Bytes) → n ≢ j → c ≢ x → waits lease j ≡ in_waiting f c j
  pub held_others : (d : Bytes) → c ≢ d → d ≢ x → held_by lock d ≡ is_holder f d n
  pub waiting_others : (d : Bytes) → c ≢ d → d ≢ x → waited_by lock d ≡ is_queued f d n

module _ {x : Bytes} {f g : Fsm} {n : Bytes} {lock : Option Lock} {c : Bytes} {lease : Option Lease}
    (h : Wf x f) (u : Updates x f g n lock c lease) where
  LockOk-updated : (j : Bytes) → LockOk j (get g.locks j)
  LockOk-updated j = elim (n ≟ j) [
    | yes e ↦ rw (u.locks j, if_pos _ e) (subst (λ k. LockOk k lock) e u.lock_ok)
    | no d ↦ rw (u.locks j, if_neg _ d) (h.lock_ok j)
  ]

  LeaseOk-updated : (d : Bytes) → LeaseOk d (get g.leases d)
  LeaseOk-updated d = elim (c ≟ d) [
    | yes e ↦ rw (u.leases d, if_pos _ e) (subst (λ k. LeaseOk k lease) e u.lease_ok)
    | no k ↦ rw (u.leases d, if_neg _ k) (h.lease_ok d)
  ]

  held_updated : (d j : Bytes) → d ≢ x → in_held g d j ≡ is_holder g d j
  held_updated d j k = ground (
    arith,
    u.locks j,
    u.leases d,
    u.held_here,
    u.held_elsewhere j,
    u.held_others d,
    h.held_index d j,
  )

  waiting_updated : (d j : Bytes) → d ≢ x → in_waiting g d j ≡ is_queued g d j
  waiting_updated d j k = ground (
    arith,
    u.locks j,
    u.leases d,
    u.waiting_here,
    u.waiting_elsewhere j,
    u.waiting_others d,
    h.waiting_index d j,
  )

  pub Wf-update : Wf x g
  Wf-update = record {
    lock_ok = LockOk-updated;
    lease_ok = LeaseOk-updated;
    held_index = held_updated;
    waiting_index = waiting_updated;
  }

-- Only the locks and the leases count.
pub Wf-same : {x : Bytes} {f g : Fsm} → g.locks ≡ f.locks → g.leases ≡ f.leases → Wf x f → Wf x g
Wf-same p q h = record {
  lock_ok = λ n. rw p (h.lock_ok n);
  lease_ok = λ c. rw q (h.lease_ok c);
  held_index = λ c n k. rw (p, q) (h.held_index c n k);
  waiting_index = λ c n k. rw (p, q) (h.waiting_index c n k);
}
