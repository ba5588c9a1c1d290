-- ===== src/Fsm/WellFormed/Drop.antt =====
-- Dropping a lease keeps the shard well formed: the loops over its held keys and its queues.
use zuul.Shared.{
  ℕ, Bytes, false, none, some, [], ◌≡◌, bytes_key, arith, refl, inl, inr, Option-cases, Bool-cases,
  signed_ltb, subst, sym, ◌∙◌,
}
use zuul.GoMap.{get, delete, get-delete, sorted_keys, contains}
use zuul.GoMap.Sorted.{IsSorted, contains-sorted_keys, sorted_keys-IsSorted}
use zuul.Fsm.Types.{Fsm, Lease}
use zuul.Fsm.Leases.{lease_revoke, lease_expire, release_all, dequeue_all, waiting_now, drop_lease}
use zuul.Fsm.WellFormed.Defs.{Wf, is_holder, is_queued, lease-client}
use zuul.Fsm.WellFormed.Update.{Wf-update}
use zuul.Fsm.WellFormed.Release.{Wf-weaken, Wf-restore}
use zuul.Fsm.WellFormed.Loops.{Released, Dequeued, release_all-Released, dequeue_all-Dequeued}

-- The lease goes once no lock knows the client.
delete_lease-Wf :
    (x : Bytes) (f : Fsm)
    → Wf x f
    → ((j : Bytes) → is_holder f x j ≡ false)
    → ((j : Bytes) → is_queued f x j ≡ false)
    → Wf [] (record f { leases = delete f.leases x })
delete_lease-Wf x f h held queue =
    let g = record f { leases = delete f.leases x } in
    let gone : get g.leases x ≡ none = ground (arith, get-delete f.leases x x) in
    Wf-restore x g
      (Wf-update h (record {
        locks = λ j. ground arith;
        leases = λ d. get-delete f.leases x d;
        lock_ok = h.lock_ok [];
        lease_ok = tt;
        held_here = λ k. absurd (k refl);
        waiting_here = λ k. absurd (k refl);
        held_elsewhere = λ j k l. absurd (l refl);
        waiting_elsewhere = λ j k l. absurd (l refl);
        held_others = λ d k l. refl;
        waiting_others = λ d k l. refl;
      }))
      (λ j. rw gone (sym (held j))) (λ j. rw gone (sym (queue j)))

module _ (f : Fsm) (ls : Lease) (h : Wf [] f) (e : get f.leases ls.client_id ≡ some ls) where
  x : Bytes
  x = ls.client_id

  after_held : Fsm
  after_held = release_all f ls.client_id (sorted_keys ls.held)

  released : Released x f after_held
  unfolding x after_held
  released =
      release_all-Released ls.client_id f (sorted_keys ls.held) (sorted_keys-IsSorted ls.held)
        (Wf-weaken ls.client_id f h)
        λ j. ground (
          arith,
          contains-sorted_keys ls.held j,
          h.held_index ls.client_id j,
          h.lease_ok ls.client_id,
        )

  waiting_now_lem : waiting_now after_held ls ≡ sorted_keys ls.waiting
  unfolding x waiting_now
  waiting_now_lem = ground (arith, released.lease)

  waiting_now-IsSorted : IsSorted (waiting_now after_held ls)
  waiting_now-IsSorted = rw waiting_now_lem (sorted_keys-IsSorted ls.waiting)

  waits_as_queued : (j : Bytes) → is_queued after_held x j ≡ contains (waiting_now after_held ls) j
  unfolding x
  waits_as_queued j = ground (
    arith,
    waiting_now_lem,
    released.queue j,
    contains-sorted_keys ls.waiting j,
    h.waiting_index ls.client_id j,
    h.lease_ok ls.client_id,
  )

  dequeued : Dequeued x after_held (dequeue_all after_held x (waiting_now after_held ls))
  dequeued =
      dequeue_all-Dequeued x after_held (waiting_now after_held ls) waiting_now-IsSorted released.wf
        waits_as_queued

  dropped-Wf : Wf [] (drop_lease f ls)
  unfolding drop_lease x after_held
  dropped-Wf =
      delete_lease-Wf ls.client_id _ dequeued.wf (λ j. dequeued.held j ∙ released.held j)
        dequeued.queue

pub drop_lease-Wf :
    (f : Fsm) (ls : Lease) (c : Bytes)
    → Wf [] f
    → get f.leases c ≡ some ls
    → Wf [] (drop_lease f ls)
drop_lease-Wf f ls c h e =
    dropped-Wf f ls h (subst (λ d. get f.leases d ≡ some ls) (sym (lease-client h e).0) e)

pub lease_revoke-Wf : (f : Fsm) (client : Bytes) → Wf [] f → Wf [] (lease_revoke f client).0
unfolding lease_revoke
lease_revoke-Wf f client h = elim (Option-cases (get f.leases client)) [
  | inl e ↦ rw e h
  | inr (ls, e) ↦ rw e (drop_lease-Wf f ls client h e)
]

pub lease_expire-Wf :
    (f : Fsm) (client : Bytes) (now : ℕ) → Wf [] f → Wf [] (lease_expire f client now).0
unfolding lease_expire
lease_expire-Wf f client now h = elim (Option-cases (get f.leases client)) [
  | inl e ↦ rw e h
  | inr (ls, e) ↦ elim (Bool-cases (signed_ltb now ls.expire_at)) [
    | inl k ↦ rw (e, k) h
    | inr k ↦ rw (e, k) (drop_lease-Wf f ls client h e)
  ]
]
