-- ===== src/Fsm/WellFormed/Leases.antt =====
-- The lease operations keep the shard well formed.
use zuul.Shared.{ℕ, Bytes, [], ◌≡◌, ◌≢◌, bytes_key, arith, refl, inl, inr, Option-cases, ◌∙◌}
use zuul.GoMap.{get, has, put, get-put, get-empty}
use zuul.Fsm.Types.{Fsm, Lease}
use zuul.Fsm.Leases.{lease_of, lease_grant, lease_keep_alive}
use zuul.Fsm.WellFormed.Defs.{Wf, in_held, in_waiting, lease-client}
use zuul.Fsm.WellFormed.Update.{Wf-update}

-- A lease is written whose indexes are as they were.
module _ (f : Fsm) (client : Bytes) (ls : Lease) (h : Wf [] f) (named : client ≢ [])
    (same_client : ls.client_id ≡ client)
    (same_held : (j : Bytes) → has ls.held j ≡ in_held f client j)
    (same_waiting : (j : Bytes) → has ls.waiting j ≡ in_waiting f client j) where
  put_lease-Wf : Wf [] (record f { leases = put f.leases client ls })
  put_lease-Wf = Wf-update h (record {
    locks = λ j. ground arith;
    leases = λ d. get-put f.leases client ls d;
    lock_ok = h.lock_ok [];
    lease_ok = (same_client, named);
    held_here = λ k. same_held [] ∙ h.held_index client [] k;
    waiting_here = λ k. same_waiting [] ∙ h.waiting_index client [] k;
    held_elsewhere = λ j k _. same_held j;
    waiting_elsewhere = λ j k _. same_waiting j;
    held_others = λ d k _. refl;
    waiting_others = λ d k _. refl;
  })

pub lease_grant-Wf :
    (f : Fsm) (client : Bytes) (ttl now : ℕ)
    → client ≢ []
    → Wf [] f
    → Wf [] (lease_grant f client ttl now).0
unfolding lease_grant lease_of
lease_grant-Wf f client ttl now named h = elim (Option-cases (get f.leases client)) [
  | inl e ↦
      rw e (put_lease-Wf f client _ h named refl (λ j. rw (e, get-empty)) (λ j. rw (e, get-empty)))
  | inr (ls, e) ↦
      rw e (
        put_lease-Wf f client _ h named (lease-client h e).0 (λ j. ground arith)
          (λ j. ground arith))
]

pub lease_keep_alive-Wf :
    (f : Fsm) (client : Bytes) (now : ℕ) → Wf [] f → Wf [] (lease_keep_alive f client now).0
unfolding lease_keep_alive
lease_keep_alive-Wf f client now h = elim (Option-cases (get f.leases client)) [
  | inl e ↦ rw e h
  | inr (ls, e) ↦
      rw (e, (lease-client h e).0)
        (put_lease-Wf f client _ h (lease-client h e).1 refl (λ j. ground arith)
          (λ j. ground arith))
]
