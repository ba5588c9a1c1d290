-- ===== src/Fsm/Ownership/Apply.antt =====
-- A holder loses its key by its own release, or by the drop of its own lease.
use zuul.Shared.{
  ℕ, Bytes, true, false, Option, none, some, [], ◌≡◌, ◌⊎◌, inl, inr, refl, arith, bytes_key, ◌≟◌,
  Option-cases, Bool-cases, sym, ap, ◌∙◌, subst, signed_ltb, inc64,
}
use zuul.GoMap.{get}
use zuul.Fsm.Types.{
  Fsm, Lock, Lease, Command, acquire_lock, campaign, release_lock, resign, cancel_wait, proclaim,
  lease_grant, lease_keep_alive, lease_revoke, lease_expire, unset,
}
use zuul.Fsm.Locks.{promote, refusal, forget_held, release}
use zuul.Fsm.Leases.{
  lease_grant as give, lease_keep_alive as renew, lease_revoke as revoke, lease_expire as expire,
  drop_lease,
}
use zuul.Fsm.Apply.{dispatch, apply}
use zuul.Fsm.WellFormed.{Wf, lock-Ok, lease-client, refusal-none, Wf-same}
use zuul.Fsm.Tokens.{Wf-Named}
use zuul.Fsm.Ownership.Locks.{kept_all, acquire-Keeps, cancel-Keeps, publish-Keeps}
use zuul.Fsm.Ownership.Keeps.{SameHold, KeptHold, promote-elsewhere, drop_lease-Keeps}

-- The command takes key `n` from its holder `lk`: it is the holder's release or resignation under the
-- lock's token, a revocation of the holder's lease, or an expiry of it at or past its deadline.
abbrev pub Ends : Fsm → Bytes → Lock → Command → Type 0
Ends f n lk (release_lock name client token) =
    (name ≡ n) × (client ≡ lk.holder) × (token ≡ lk.token)
Ends f n lk (resign name client token) = (name ≡ n) × (client ≡ lk.holder) × (token ≡ lk.token)
Ends f n lk (lease_revoke client) = client ≡ lk.holder
Ends f n lk (lease_expire client now) =
    (client ≡ lk.holder)
    × ((ls : Lease) × (get f.leases client ≡ some ls) × (signed_ltb now ls.expire_at ≡ false))
Ends f n lk _ = ⊥

forget_held_locks :
    (f : Fsm) (name : Bytes) (o : Option Lease) → (forget_held f name o).locks ≡ f.locks
unfolding forget_held
forget_held_locks f name none = refl
forget_held_locks f name (some ls) = refl

module _ (f : Fsm) (n : Bytes) (lk : Lock) (h : Wf [] f) (e : get f.locks n ≡ some lk) where
  unchanged : (g : Fsm) → get g.locks n ≡ get f.locks n → SameHold lk (get g.locks n)
  unchanged g same = rw (same, e) (refl, refl)

  released-Ends :
      (name client : Bytes) (token : ℕ) (a : Lock)
      → get f.locks name ≡ some a
      → (a.holder ≡ client) × (a.token ≡ token)
      → let g = promote (forget_held f name (get f.leases client)) a in
        SameHold lk (get g.locks n) ⊎ ((name ≡ n) × (client ≡ lk.holder) × (token ≡ lk.token))
  released-Ends name client token a found holds = elim (name ≟ n) [
    | yes q ↦ inr (ground (arith, ap (λ (k : Bytes). get f.locks k) q))
    | no d ↦
        let g = forget_held f name (get f.leases client) in
        inl (
          unchanged (promote g a)
            (promote-elsewhere g a n (rw (lock-Ok h found).0 d) ∙ rw forget_held_locks refl))
  ]

  release-Ends :
      (name client : Bytes) (token : ℕ)
      → SameHold lk (get (release f name client token).0.locks n)
        ⊎ ((name ≡ n) × (client ≡ lk.holder) × (token ≡ lk.token))
  unfolding release
  release-Ends name client token = elim (Option-cases (get f.locks name)) [
    | inl k ↦ rw k (unfold refusal in inl (unchanged f refl))
    | inr (a, k) ↦ elim (Option-cases (refusal f name client token (some a))) [
      | inl r ↦
          rw (k, r) (released-Ends name client token a k (refusal-none f name client token a r))
      | inr (r, q) ↦ rw (k, q) (inl (unchanged f refl))
    ]
  ]

  dropped-Ends :
      (client : Bytes) (ls : Lease)
      → get f.leases client ≡ some ls
      → SameHold lk (get (drop_lease f ls).locks n) ⊎ (client ≡ lk.holder)
  dropped-Ends client ls found = lost (
      subst (λ o. KeptHold ls.client_id o (get (drop_lease f ls).locks n)) e
        ((drop_lease-Keeps f ls (Wf-Named h)).at n))
    where
      lost :
          KeptHold ls.client_id (some lk) (get (drop_lease f ls).locks n)
          → SameHold lk (get (drop_lease f ls).locks n) ⊎ (client ≡ lk.holder)
      lost (inl p) = inr (sym (lease-client h found).0 ∙ sym p)
      lost (inr s) = inl s

  revoke-Ends :
      (client : Bytes) → SameHold lk (get (revoke f client).0.locks n) ⊎ (client ≡ lk.holder)
  unfolding revoke
  revoke-Ends client = elim (Option-cases (get f.leases client)) [
    | inl k ↦ rw k (inl (unchanged f refl))
    | inr (ls, k) ↦ rw k (dropped-Ends client ls k)
  ]

  expired_lem :
      (client : Bytes) (now : ℕ) (ls : Lease)
      → get f.leases client ≡ some ls
      → signed_ltb now ls.expire_at ≡ false
      → (expire f client now).0 ≡ drop_lease f ls
  unfolding expire
  expired_lem client now ls k t = rw (k, t)

  not_due_lem :
      (client : Bytes) (now : ℕ) (ls : Lease)
      → get f.leases client ≡ some ls
      → signed_ltb now ls.expire_at ≡ true
      → (expire f client now).0 ≡ f
  unfolding expire
  not_due_lem client now ls k t = rw (k, t)

  no_lease_lem :
      (client : Bytes) (now : ℕ) → get f.leases client ≡ none → (expire f client now).0 ≡ f
  unfolding expire
  no_lease_lem client now k = rw k

  expire-Ends :
      (client : Bytes) (now : ℕ)
      → SameHold lk (get (expire f client now).0.locks n) ⊎ Ends f n lk (lease_expire client now)
  expire-Ends client now = elim (Option-cases (get f.leases client)) [
    | inl k ↦ inl (
        unchanged (expire f client now).0
          (ap (λ (g : Fsm). get g.locks n) (no_lease_lem client now k)))
    | inr (ls, k) ↦ elim (Bool-cases (signed_ltb now ls.expire_at)) [
      | inl t ↦ inl (
          unchanged (expire f client now).0
            (ap (λ (g : Fsm). get g.locks n) (not_due_lem client now ls k t)))
      | inr t ↦ due ls k t (dropped-Ends client ls k)
    ]
  ]
    where
      due :
          (ls : Lease)
          → get f.leases client ≡ some ls
          → signed_ltb now ls.expire_at ≡ false
          → SameHold lk (get (drop_lease f ls).locks n) ⊎ (client ≡ lk.holder)
          → SameHold lk (get (expire f client now).0.locks n)
            ⊎ Ends f n lk (lease_expire client now)
      due ls k t (inl s) =
          inl (
            subst (λ (g : Fsm). SameHold lk (get g.locks n)) (sym (expired_lem client now ls k t))
              s)
      due ls k t (inr p) = inr (p, (ls, k, t))

  renew-same : (client : Bytes) (now : ℕ) → (renew f client now).0.locks ≡ f.locks
  unfolding renew
  renew-same client now = elim (Option-cases (get f.leases client)) [
    | inl k ↦ rw k
    | inr (ls, k) ↦ rw k
  ]

  dispatch-Ends : (c : Command) → SameHold lk (get (dispatch f c).0.locks n) ⊎ Ends f n lk c
  unfolding dispatch
  dispatch-Ends (acquire_lock name client try) =
      inl (kept_all n h e (acquire-Keeps f name client none try (Wf-Named h)))
  dispatch-Ends (campaign name client value) =
      inl (kept_all n h e (acquire-Keeps f name client value _ (Wf-Named h)))
  dispatch-Ends (release_lock name client token) = release-Ends name client token
  dispatch-Ends (resign name client token) = release-Ends name client token
  dispatch-Ends (cancel_wait name client) =
      inl (kept_all n h e (cancel-Keeps f name client (Wf-Named h)))
  dispatch-Ends (proclaim name client token value) =
      inl (kept_all n h e (publish-Keeps f name client token value (Wf-Named h)))
  dispatch-Ends (lease_grant client ttl now) =
      inl (unchanged (give f client ttl now).0 (unfold give in refl))
  dispatch-Ends (lease_keep_alive client now) =
      inl (unchanged (renew f client now).0 (ap (λ m. get m n) (renew-same client now)))
  dispatch-Ends (lease_revoke client) = revoke-Ends client
  dispatch-Ends (lease_expire client now) = expire-Ends client now
  dispatch-Ends unset = inl (unchanged f refl)

-- On a well-formed shard, a lock that is held before a command is held by the same client under the
-- same token after it, unless the command is the holder's own release or resignation under that
-- token, a revocation of the holder's lease, or an expiry of that lease stamped at or past its
-- deadline.
pub apply-Ends :
    (f : Fsm) (c : Command) (n : Bytes) (lk : Lock)
    → Wf [] f
    → get f.locks n ≡ some lk
    → SameHold lk (get (apply f (some c)).0.locks n) ⊎ Ends f n lk c
unfolding apply
apply-Ends f c n lk h e =
    dispatch-Ends (record f { revision = inc64 f.revision }) n lk (Wf-same refl refl h) e c
