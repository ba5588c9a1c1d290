-- ===== src/Fsm/WellFormed/Queue.antt =====
-- Leaving a queue, and publishing a value, keep the shard well formed.
use zuul.Shared.{
  ℕ, Bytes, true, false, Option, none, some, List, [], ◌∷◌, ite, ◌≟◌, ◌≡◌, ◌≢◌, bytes_key, arith,
  refl, inl, inr, if_pos, if_neg, Option-cases,
}
use mathlib.Core.Option
use zuul.GoMap.{get, put, delete, get-put, get-delete}
use zuul.Fsm.Types.{Fsm, Lock, Lease, Waiter}
use zuul.Fsm.Locks.{remove_first, refusal, forget_waiting, cancel_wait, proclaim}
use zuul.Fsm.WellFormed.Defs.{Wf, Distinct, queued, lease-client, lock-Ok}
use zuul.Fsm.WellFormed.Update.{Updates, Wf-update, Wf-same}
use zuul.Fsm.WellFormed.Acquire.{emit_locks, emit_leases}

-- What is left of a queue, where the client stood in it.
abbrev pub Left : Bytes → List Waiter → Option (List Waiter) → Type 0
Left c q none = queued q c ≡ false
Left c q (some r) =
    Distinct r × ((d : Bytes) → queued r d ≡ ite (c ≟ d) false (queued q d)) × (queued q c ≡ true)

Left-cons :
    (c : Bytes) (w : Waiter) (q : List Waiter) (o : Option (List Waiter))
    → w.client_id ≢ c
    → queued q w.client_id ≡ false
    → Left c q o
    → Left c (w ∷ q) (Option.map (λ r. w ∷ r) o)
Left-cons c w q none ne n l = ground arith
Left-cons c w q (some r) ne n l =
    ((ground (arith, l.1 w.client_id), l.0), (λ d. ground (arith, l.1 d)), ground arith)

pub remove_first-Left : (c : Bytes) (q : List Waiter) → Distinct q → Left c q (remove_first c q)
unfolding remove_first
remove_first-Left c [] d = refl
remove_first-Left c (w ∷ q) d = elim (w.client_id ≟ c) [
  | yes e ↦ rw (if_pos _ e) (d.1, (λ j. ground arith), ground arith)
  | no ne ↦ rw (if_neg _ ne) (Left-cons c w q (remove_first c q) ne d.0 (remove_first-Left c q d.1))
]

module _ (f : Fsm) (name client : Bytes) (h : Wf [] f) (lk : Lock)
    (found : get f.locks name ≡ some lk) where
  module _ (r : List Waiter) (left : Left client lk.queue (some r)) (ls : Lease)
      (leased : get f.leases client ≡ some ls) where
    cancel-Updates :
        Updates [] f
          (forget_waiting
            (record f { locks = put f.locks lk.name (record lk { queue = r }) })
            name
            (some ls))
          name
          (some (record lk { queue = r }))
          client
          (some (record ls { waiting = delete ls.waiting name }))
    unfolding forget_waiting
    cancel-Updates = record {
      locks =
          λ j. ground (arith, get-put f.locks lk.name (record lk { queue = r }) j, lock-Ok h found);
      leases = λ d. rw (get-put, (lease-client h leased).0);
      lock_ok = ground (arith, lock-Ok h found, left.1 lk.holder, left.1 []);
      lease_ok = lease-client h leased;
      held_here = λ k. ground (arith, h.held_index client name);
      waiting_here = λ k. ground (arith, get-delete ls.waiting name name, left.1 client);
      held_elsewhere = λ j k _. ground arith;
      waiting_elsewhere = λ j k _. ground (arith, get-delete ls.waiting name j);
      held_others = λ d k _. ground arith;
      waiting_others = λ d k _. ground (arith, left.1 d);
    }

  queued_leased : queued lk.queue client ≡ true → get f.leases client ≢ none
  queued_leased q e = ground (arith, h.waiting_index client name, lock-Ok h found)

  cancelled-Wf :
      (r : List Waiter)
      → Left client lk.queue (some r)
      → Wf [] (
          forget_waiting
            (record f { locks = put f.locks lk.name (record lk { queue = r }) })
            name
            (get f.leases client))
  cancelled-Wf r left = elim (Option-cases (get f.leases client)) [
    | inl e ↦ absurd (queued_leased left.2 e)
    | inr (ls, e) ↦ rw e (Wf-update h (cancel-Updates r left ls e))
  ]

  cancel-Left-Wf :
      (o : Option (List Waiter))
      → remove_first client lk.queue ≡ o
      → Left client lk.queue o
      → Wf [] (cancel_wait f name client).0
  cancel-Left-Wf none e left = unfold cancel_wait in rw (found, e) h
  cancel-Left-Wf (some r) e left = unfold cancel_wait in rw (found, e) (cancelled-Wf r left)

  proclaim-Updates :
      (value : Option Bytes)
      → Updates [] f
          (record f { locks = put f.locks lk.name (record lk { value = value }) })
          name
          (some (record lk { value = value }))
          client
          (get f.leases client)
  proclaim-Updates value = record {
    locks = λ j.
        ground (arith, get-put f.locks lk.name (record lk { value = value }) j, lock-Ok h found);
    leases = λ d. ground arith;
    lock_ok = ground (arith, lock-Ok h found);
    lease_ok = h.lease_ok client;
    held_here = λ k. ground (arith, h.held_index client name);
    waiting_here = λ k. ground (arith, h.waiting_index client name);
    held_elsewhere = λ j k _. refl;
    waiting_elsewhere = λ j k _. refl;
    held_others = λ d k _. ground arith;
    waiting_others = λ d k _. ground arith;
  }

pub cancel_wait-Wf : (f : Fsm) (name client : Bytes) → Wf [] f → Wf [] (cancel_wait f name client).0
cancel_wait-Wf f name client h = elim (Option-cases (get f.locks name)) [
  | inl e ↦ unfold cancel_wait in rw e h
  | inr (lk, e) ↦
      cancel-Left-Wf f name client h lk e (remove_first client lk.queue) refl
        (remove_first-Left client lk.queue (lock-Ok h e).2)
]

pub proclaim-Wf :
    (f : Fsm) (name client : Bytes) (token : ℕ) (value : Option Bytes)
    → Wf [] f
    → Wf [] (proclaim f name client token value).0
unfolding proclaim
proclaim-Wf f name client token value h = elim (Option-cases (get f.locks name)) [
  | inl e ↦ rw e (unfold refusal in h)
  | inr (lk, e) ↦ elim (Option-cases (refusal f name client token (some lk))) [
    | inl k ↦
        rw (e, k)
          (Wf-same (emit_locks _ _ _ _ _) (emit_leases _ _ _ _ _)
            (Wf-update h (proclaim-Updates f name client h lk e value)))
    | inr (r, k) ↦ rw (e, k) h
  ]
]
