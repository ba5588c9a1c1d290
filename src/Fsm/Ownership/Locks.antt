-- ===== src/Fsm/Ownership/Locks.antt =====
-- Acquiring, cancelling and proclaiming take no key from its holder.
use zuul.Shared.{
  ℕ, Bytes, Bool, Option, none, some, [], ◌≡◌, ◌⊎◌, inl, inr, refl, bytes_key, ◌≟◌, ite-elim,
  if-elim, Option-cases, sym, subst, inc64,
}
use zuul.GoMap.{get, get-put, has}
use zuul.Fsm.Types.{Fsm, Lock, Lease, CommandResult}
use zuul.Fsm.Locks.{
  entry_of, grant, enqueue, acquire_leased, acquire, refusal, forget_waiting, cancel_wait as cancel,
  remove_first, proclaim as publish,
}
use zuul.Fsm.WellFormed.{Wf, emit_locks, lock-Ok}
use zuul.Fsm.Tokens.{Named}
use zuul.Fsm.Tokens.Locks.{LockNamed-found}
use zuul.Fsm.Ownership.Keeps.{
  SameHold, KeptHold, Keeps, Keeps-refl, Keeps-trans, Keeps-same, write-Keeps, SameHold-Keeps,
  free-KeptHold, set_queue-Keeps,
}

-- No client is called by the empty name, so a step that keeps all others' keys keeps all.
pub kept_all :
    {f g : Fsm} {lk : Lock} (n : Bytes)
    → Wf [] f
    → get f.locks n ≡ some lk
    → Keeps [] f g
    → SameHold lk (get g.locks n)
kept_all {f} {g} {lk} n h e k = kept (subst (λ o. KeptHold [] o (get g.locks n)) e (k.at n))
  where
    kept : (lk.holder ≡ []) ⊎ SameHold lk (get g.locks n) → SameHold lk (get g.locks n)
    kept (inl p) = absurd ((lock-Ok h e).1 p)
    kept (inr s) = s

enqueue-Keeps :
    (f : Fsm) (name client : Bytes) (value : Option Bytes) (ls : Lease) (lk : Lock)
    → Named f
    → get f.locks name ≡ some lk
    → Keeps [] f (enqueue f name client value ls lk).0
unfolding enqueue
enqueue-Keeps f name client value ls lk named e =
    if-elim (λ (r : Fsm × CommandResult). Keeps [] f r.0) (has ls.waiting name) _ _
      (λ _. Keeps-refl [] f)
      λ _.
        SameHold-Keeps [] f _ lk.name lk (record lk { queue = _ })
          (subst (λ n. get f.locks n ≡ some lk) (sym (LockNamed-found f name named e)) e)
          (refl, refl) (λ n. get-put _ _ _ _)

grant-Keeps :
    (f : Fsm) (name : Bytes) (ls : Lease) (value : Option Bytes)
    → KeptHold [] (get f.locks name) none
    → Keeps [] f (grant f name ls value).0
unfolding grant
grant-Keeps f name ls value free =
    write-Keeps [] f _ name
      (some (record (entry_of name (get f.locks name)) {
        holder = ls.client_id;
        token = inc64 f.seq;
        value = value;
      }))
      (λ n. rw (emit_locks, get-put)) (free-KeptHold [] (get f.locks name) _ free)

pub acquire-Keeps :
    (f : Fsm) (name client : Bytes) (value : Option Bytes) (try : Bool)
    → Named f
    → Keeps [] f (acquire f name client value try).0
unfolding acquire acquire_leased
acquire-Keeps f name client value try named = elim (Option-cases (get f.leases client)) [
  | inl e ↦ rw e (Keeps-refl [] f)
  | inr (ls, e) ↦ elim (Option-cases (get f.locks name)) [
    | inl k ↦ rw (e, k) (grant-Keeps f name ls value (rw k tt))
    | inr (lk, k) ↦
        rw (e, k)
          (ite-elim P (lk.holder ≟ []) _ _ (λ h. grant-Keeps f name ls value (rw k (inl h)))
            λ _.
              ite-elim P (lk.holder ≟ client) _ _ (λ _. Keeps-refl [] f)
                λ _.
                  if-elim P try _ _ (λ _. Keeps-refl [] f)
                    (λ _. enqueue-Keeps f name client value ls lk named k))
  ]
]
  where
    P : Fsm × CommandResult → Type 0
    P r = Keeps [] f r.0

forget_waiting-Keeps :
    (f : Fsm) (name : Bytes) (o : Option Lease) → Keeps [] f (forget_waiting f name o)
unfolding forget_waiting
forget_waiting-Keeps f name none = Keeps-refl [] f
forget_waiting-Keeps f name (some ls) = Keeps-same [] f _ refl

pub cancel-Keeps : (f : Fsm) (name client : Bytes) → Named f → Keeps [] f (cancel f name client).0
unfolding cancel
cancel-Keeps f name client named = elim (Option-cases (get f.locks name)) [
  | inl e ↦ rw e (Keeps-refl [] f)
  | inr (lk, e) ↦ elim (Option-cases (remove_first client lk.queue)) [
    | inl k ↦ rw (e, k) (Keeps-refl [] f)
    | inr (q, k) ↦
        rw (e, k)
          (Keeps-trans [] f _ _ (set_queue-Keeps [] f name lk q named e)
            (forget_waiting-Keeps _ name (get f.leases client)))
  ]
]

pub publish-Keeps :
    (f : Fsm) (name client : Bytes) (token : ℕ) (value : Option Bytes)
    → Named f
    → Keeps [] f (publish f name client token value).0
unfolding publish
publish-Keeps f name client token value named = elim (Option-cases (get f.locks name)) [
  | inl e ↦ rw e (unfold refusal in Keeps-refl [] f)
  | inr (lk, e) ↦ elim (Option-cases (refusal f name client token (some lk))) [
    | inl k ↦
        rw (e, k)
          (SameHold-Keeps [] f _ lk.name lk (record lk { value = value })
            (subst (λ n. get f.locks n ≡ some lk) (sym (LockNamed-found f name named e)) e)
            (refl, refl) (λ n. rw (emit_locks, get-put)))
    | inr (r, k) ↦ rw (e, k) (Keeps-refl [] f)
  ]
]
