-- ===== src/Fsm/WellFormed/Release.antt =====
-- Releasing, cancelling and proclaiming keep the shard well formed.
use zuul.Shared.{
  ℕ, Bytes, false, Option, none, some, [], ite, ◌≟◌, ◌≡◌, bytes_key, arith, refl, ◌∙◌, inl, inr,
  Option-cases,
}
use zuul.GoMap.{get, delete, get-put, get-delete}
use zuul.Fsm.Types.{Fsm, Lock, Lease}
use zuul.Fsm.Locks.{promote, refusal, forget_held, release}
use zuul.Fsm.WellFormed.Defs.{
  Wf, is_holder, is_queued, in_held, in_waiting, lease-client, lock-Ok, lock_found,
}
use zuul.Fsm.WellFormed.Update.{Wf-update}
use zuul.Fsm.WellFormed.Promote.{Handover, promote-Handover}

-- A well-formed shard is so up to any client, and becomes so again when that client agrees.
pub Wf-weaken : (x : Bytes) (f : Fsm) → Wf [] f → Wf x f
Wf-weaken x f h = record {
  lock_ok = h.lock_ok;
  lease_ok = h.lease_ok;
  held_index = λ c n _. ground (arith, h.held_index c n, h.lease_ok c, h.lock_ok n);
  waiting_index = λ c n _. ground (arith, h.waiting_index c n, h.lease_ok c, h.lock_ok n);
}

pub Wf-restore :
    (x : Bytes) (f : Fsm)
    → Wf x f
    → ((n : Bytes) → in_held f x n ≡ is_holder f x n)
    → ((n : Bytes) → in_waiting f x n ≡ is_queued f x n)
    → Wf [] f
Wf-restore x f h held waiting = record {
  lock_ok = h.lock_ok;
  lease_ok = h.lease_ok;
  held_index = λ c n _. ground (arith, h.held_index c n, held n);
  waiting_index = λ c n _. ground (arith, h.waiting_index c n, waiting n);
}

module _ (f : Fsm) (name client : Bytes) (h : Wf [] f) where
  forget_held-lock :
      (o : Option Lease) (j : Bytes) → get (forget_held f name o).locks j ≡ get f.locks j
  unfolding forget_held
  forget_held-lock o j = ground arith

  forget_held-lease :
      (ls : Lease) (d : Bytes)
      → get f.leases client ≡ some ls
      → get (forget_held f name (some ls)).leases d
        ≡ ite (client ≟ d) (some (record ls { held = delete ls.held name })) (get f.leases d)
  unfolding forget_held
  forget_held-lease ls d e = rw (get-put, (lease-client h e).0)

  forget_held-Wf : Wf client (forget_held f name (get f.leases client))
  forget_held-Wf = elim (Option-cases (get f.leases client)) [
    | inl e ↦ rw e (unfold forget_held in Wf-weaken client f h)
    | inr (ls, e) ↦ rw e (
        Wf-update (Wf-weaken client f h) (record {
          locks = λ j. ground (arith, forget_held-lock (some ls) j);
          leases = λ d. forget_held-lease ls d e;
          lock_ok = h.lock_ok name;
          lease_ok = lease-client h e;
          held_here = λ k. absurd (k refl);
          waiting_here = λ k. absurd (k refl);
          held_elsewhere = λ j k l. absurd (l refl);
          waiting_elsewhere = λ j k l. absurd (l refl);
          held_others = λ d k l. refl;
          waiting_others = λ d k l. refl;
        }))
  ]

  forget_held-holds :
      (o : Option Lease) (j : Bytes)
      → get f.leases client ≡ o
      → in_held (forget_held f name o) client j ≡ ite (name ≟ j) false (in_held f client j)
  forget_held-holds none j e = unfold forget_held in ground arith
  forget_held-holds (some ls) j e =
      ground (arith, forget_held-lease ls client e, get-delete ls.held name j)

  forget_held-waits :
      (o : Option Lease) (j : Bytes)
      → get f.leases client ≡ o
      → in_waiting (forget_held f name o) client j ≡ in_waiting f client j
  forget_held-waits none j e = unfold forget_held in refl
  forget_held-waits (some ls) j e = ground (arith, forget_held-lease ls client e)

  module _ (lk : Lock) (found : get f.locks name ≡ some lk) (holder : lk.holder ≡ client) where
    g : Fsm
    g = forget_held f name (get f.leases client)

    handover : Handover client g (promote g lk) lk.name
    unfolding g
    handover =
        promote-Handover client g lk forget_held-Wf
          (forget_held-lock (get f.leases client) lk.name ∙ lock_found name h found) holder

    -- The index of the caller after both the removal and the handover.
    released-held :
        (j : Bytes) → in_held (promote g lk) client j ≡ is_holder (promote g lk) client j
    unfolding g
    released-held j = ground (
      arith,
      handover.held j,
      handover.lease,
      forget_held-holds (get f.leases client) j refl,
      forget_held-lock (get f.leases client) j,
      h.held_index client j,
      lock-Ok h found,
    )

    released-waiting :
        (j : Bytes) → in_waiting (promote g lk) client j ≡ is_queued (promote g lk) client j
    unfolding g
    released-waiting j = ground (
      arith,
      handover.queue j,
      handover.lease,
      forget_held-waits (get f.leases client) j refl,
      forget_held-lock (get f.leases client) j,
      h.waiting_index client j,
      lock-Ok h found,
    )

    released-Wf : Wf [] (promote (forget_held f name (get f.leases client)) lk)
    unfolding g
    released-Wf = Wf-restore client (promote g lk) handover.wf released-held released-waiting

-- A command that is not refused names the holder and its token.
pub refusal-none :
    (f : Fsm) (name client : Bytes) (token : ℕ) (lk : Lock)
    → refusal f name client token (some lk) ≡ none
    → (lk.holder ≡ client) × (lk.token ≡ token)
unfolding refusal
refusal-none f name client token lk e = ground arith

pub release-Wf :
    (f : Fsm) (name client : Bytes) (token : ℕ) → Wf [] f → Wf [] (release f name client token).0
unfolding release
release-Wf f name client token h = elim (Option-cases (get f.locks name)) [
  | inl e ↦ rw e (unfold refusal in h)
  | inr (lk, e) ↦ elim (Option-cases (refusal f name client token (some lk))) [
    | inl k ↦ rw (e, k) (released-Wf f name client h lk e (refusal-none f name client token lk k).0)
    | inr (r, k) ↦ rw (e, k) h
  ]
]
