-- ===== src/Fsm/Expiry.antt =====
-- What the expiry of one client's lease (`dropLease` of internal/raft/fsm/leases.go) leaves of the leases
-- of the others.
use zuul.Shared.{
  ℕ, Bytes, false, Option, none, some, List, [], ◌∷◌, ite, ◌≟◌, ◌≡◌, refl, ap, ◌∙◌, sym, arith,
  bytes_key, Option-cases, inl, inr, signed_ltb, ite-elim, if◌then◌else◌, if-elim,
}
use zuul.GoMap.{GoMap, get, put, get-put, get-delete, contains, sorted_keys}
use zuul.Fsm.Types.{Fsm, Lock, Lease, Waiter, CommandResult}
use zuul.Fsm.Locks.{promote, promote_loop, promote_to, remove_first}
use zuul.Fsm.Leases.{
  release_held, release_all, dequeue, dequeue_all, expire_found, drop_lease, waiting_now,
  lease_expire,
}
use zuul.Fsm.Queries.{is_due}
use zuul.Fsm.WellFormed.{Wf, lease-client, emit_leases}

-- A lease less its indexes: whose it is, and until when.
abbrev pub term : Option Lease → Option (Bytes × ℕ)
term none = none
term (some ls) = some (ls.client_id, ls.expire_at)

-- Each lease is filed under its client.
abbrev pub Named : Fsm → Type 0
Named f = (c d : Bytes) (t : ℕ) → term (get f.leases c) ≡ some (d, t) → d ≡ c

-- Two shards have the same leases, but for the indexes.
abbrev SameTerms : Fsm → Fsm → Type 0
SameTerms f g = (c : Bytes) → term (get g.leases c) ≡ term (get f.leases c)

SameTerms-Named : (f g : Fsm) → SameTerms f g → Named f → Named g
SameTerms-Named f g s n c d t e = n c d t (sym (s c) ∙ e)

pub Wf-Named : (f : Fsm) → Wf [] f → Named f
Wf-Named f h c d t e = elim (Option-cases (get f.leases c)) [
  | inl p ↦ ground (arith, p, e)
  | inr (ls, p) ↦ ground (arith, p, e, (lease-client h p).0)
]

put-term :
    (m : GoMap Bytes Lease) (ls ls' : Lease) (c : Bytes)
    → get m ls.client_id ≡ some ls
    → term (some ls') ≡ term (some ls)
    → term (get (put m ls.client_id ls') c) ≡ term (get m c)
put-term m ls ls' c e p = ground (arith, e, p, get-put m ls.client_id ls' c)

promote_to-term :
    (f : Fsm) (lk : Lock) (w : Waiter) (q : List Waiter) (ls : Lease)
    → Named f
    → get f.leases w.client_id ≡ some ls
    → SameTerms f (promote_to f lk w q ls)
unfolding promote_to
promote_to-term f lk w q ls n e c =
    let own = n w.client_id ls.client_id ls.expire_at (ap term e) in
    rw (emit_leases _ lk.name w.client_id _ w.value)
      (put-term f.leases ls _ c (ap (get f.leases) own ∙ e) refl)

promote_loop-term :
    (f : Fsm) (lk : Lock) (q : List Waiter) → Named f → SameTerms f (promote_loop f lk q)
unfolding promote_loop
promote_loop-term f lk [] n c = rw (emit_leases _ lk.name [] 0 none) refl
promote_loop-term f lk (w ∷ q) n c = elim (Option-cases (get f.leases w.client_id)) [
  | inl e ↦ rw e (promote_loop-term f lk q n c)
  | inr (ls, e) ↦ rw e (promote_to-term f lk w q ls n e c)
]

release_held-term :
    (f : Fsm) (client : Bytes) (o : Option Lock) → Named f → SameTerms f (release_held f client o)
unfolding release_held promote
release_held-term f client none n c = refl
release_held-term f client (some lk) n c =
    ite-elim (λ g. term (get g.leases c) ≡ term (get f.leases c)) (lk.holder ≟ client) _ f
      (λ _. promote_loop-term f lk lk.queue n c) (λ _. refl)

release_all-term :
    (f : Fsm) (client : Bytes) (ns : List Bytes) → Named f → SameTerms f (release_all f client ns)
unfolding release_all
release_all-term f client [] n c = refl
release_all-term f client (k ∷ ks) n c =
    let one = release_held-term f client (get f.locks k) n in
    release_all-term (release_held f client (get f.locks k)) client ks
      (SameTerms-Named f (release_held f client (get f.locks k)) one n) c
    ∙ one c

dequeue-leases :
    (f : Fsm) (client : Bytes) (o : Option Lock) → (dequeue f client o).leases ≡ f.leases
unfolding dequeue
dequeue-leases f client none = refl
dequeue-leases f client (some lk) = elim (Option-cases (remove_first client lk.queue)) [
  | inl e ↦ rw e refl
  | inr (q, e) ↦ rw e refl
]

dequeue_all-leases :
    (f : Fsm) (client : Bytes) (ns : List Bytes) → (dequeue_all f client ns).leases ≡ f.leases
unfolding dequeue_all
dequeue_all-leases f client [] = refl
dequeue_all-leases f client (k ∷ ks) =
    dequeue_all-leases (dequeue f client (get f.locks k)) client ks
    ∙ dequeue-leases f client (get f.locks k)

pub drop_lease-term :
    (f : Fsm) (ls : Lease) (c : Bytes)
    → Named f
    → term (get (drop_lease f ls).leases c) ≡ ite (ls.client_id ≟ c) none (term (get f.leases c))
unfolding drop_lease
drop_lease-term f ls c n =
    let g = release_all f ls.client_id (sorted_keys ls.held) in
    rw (dequeue_all-leases g ls.client_id (waiting_now g ls), get-delete g.leases ls.client_id c)
      (ground (arith, release_all-term f ls.client_id (sorted_keys ls.held) n c))

-- The term, if it is not due.
abbrev pub live : ℕ → Option (Bytes × ℕ) → Option (Bytes × ℕ)
live now none = none
live now (some (c, t)) = if signed_ltb now t then some (c, t) else none

pub lease_expire-term :
    (f : Fsm) (client : Bytes) (now : ℕ) (c : Bytes)
    → Named f
    → term (get (lease_expire f client now).0.leases c)
      ≡ ite (client ≟ c) (live now (term (get f.leases c))) (term (get f.leases c))
unfolding lease_expire expire_found is_due
lease_expire-term f client now c n = elim (Option-cases (get f.leases client)) [
  | inl e ↦ rw e (ground (arith, e))
  | inr (ls, e) ↦ rw e (expired ls e (n client ls.client_id ls.expire_at (ap term e)))
]
  where
    expired :
        (ls : Lease)
        → get f.leases client ≡ some ls
        → ls.client_id ≡ client
        → term (get (expire_found f now (some ls)).0.leases c)
          ≡ ite (client ≟ c) (live now (term (get f.leases c))) (term (get f.leases c))
    expired ls e own =
        if-elim
          (λ (p : Fsm × CommandResult).
            term (get p.0.leases c)
            ≡ ite (client ≟ c) (live now (term (get f.leases c))) (term (get f.leases c)))
          (signed_ltb now ls.expire_at) _ _ (λ t. ground (arith, e, t))
          (λ t. ground (arith, e, t, own, drop_lease-term f ls c n))

pub live-is_due : (now : ℕ) (o : Option Lease) → is_due now o ≡ false → live now (term o) ≡ term o
unfolding is_due
live-is_due now none h = refl
live-is_due now (some ls) h = ground (arith, h)

-- A sweep's next client.
pub live_next :
    (now : ℕ) (client c : Bytes) (cs : List Bytes) (t : Option (Bytes × ℕ))
    → (if contains cs c
        then live now (ite (client ≟ c) (live now t) t)
        else ite (client ≟ c) (live now t) t)
      ≡ (if contains (client ∷ cs) c then live now t else t)
live_next now client c cs none = ground arith
live_next now client c cs (some (d, t)) = ground arith
