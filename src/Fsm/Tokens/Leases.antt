-- ===== src/Fsm/Tokens/Leases.antt =====
-- A drop hands out at most one token for each key that the lease held.
use zuul.Shared.{
  ite-elim, if-elim, inc64, ℕ, suc, ◌+◌, ◌<◌, Bytes, Option, none, some, List, [], ◌∷◌, ◌≡◌, inl,
  inr, arith, bytes_key, refl, sym, subst, Option-cases, u64_mod, ite, ◌≟◌, if_pos, if_neg, length,
  signed_ltb,
}
use zuul.GoMap.{get, put, get-put, get-delete, sorted_keys}
use zuul.Fsm.Types.{Fsm, Lock, Lease, Waiter, CommandResult}
use zuul.Fsm.Locks.{promote, promote_loop, promote_to, remove_first}
use zuul.Fsm.Leases.{
  lease_grant, lease_keep_alive, lease_revoke, lease_expire, release_held, release_all, dequeue,
  dequeue_all, waiting_now, drop_lease,
}
use zuul.Fsm.WellFormed.{emit_locks}
use zuul.Fsm.Tokens.Defs.{
  Advance, LockNamed, Named, kept-Advance, Advance-refl, Advance-trans, Advance-same,
  Advance-weaken,
}
use zuul.Fsm.Tokens.Locks.{promote-Advance, LockNamed-found}

release_held-Advance :
    (f : Fsm) (x : Bytes) (o : Option Lock) → f.seq + 1 < u64_mod → Advance 1 f (release_held f x o)
unfolding release_held
release_held-Advance f x none room = Advance-weaken 0 1 f f (omega arith) (Advance-refl f)
release_held-Advance f x (some lk) room = elim (lk.holder ≟ x) [
  | yes e ↦ rw (if_pos (lk.holder ≟ x) e) (promote-Advance f lk room)
  | no d ↦ rw (if_neg (lk.holder ≟ x) d) (Advance-weaken 0 1 f f (omega arith) (Advance-refl f))
]

pub release_all-Advance :
    (f : Fsm) (x : Bytes) (names : List Bytes)
    → f.seq + length names < u64_mod
    → Advance (length names) f (release_all f x names)
unfolding release_all
release_all-Advance f x [] room = Advance-refl f
release_all-Advance f x (name ∷ names) room =
    let g = release_held f x (get f.locks name) in
    let first = release_held-Advance f x (get f.locks name) (omega arith) in
    let rest = release_all-Advance g x names (omega (arith, first.at_most)) in
    Advance-weaken (1 + length names) (suc (length names)) f _ (omega arith)
      (Advance-trans 1 (length names) f g _ first rest)

put_lock-Named :
    (f g : Fsm) (lk : Lock)
    → ((n : Bytes) → get g.locks n ≡ ite (lk.name ≟ n) (some lk) (get f.locks n))
    → Named f
    → Named g
put_lock-Named f g lk locks named n =
    rw (locks n) (ite-elim (LockNamed n) (lk.name ≟ n) _ _ (λ k. k) (λ _. named n))

promote_loop-Named :
    (f : Fsm) (lk : Lock) (queue : List Waiter) → Named f → Named (promote_loop f lk queue)
unfolding promote_loop promote_to
promote_loop-Named f lk [] named = λ n.
    rw (emit_locks, get-delete) (ite-elim (LockNamed n) (lk.name ≟ n) _ _ (λ _. tt) (λ _. named n))
promote_loop-Named f lk (w ∷ queue) named = elim (Option-cases (get f.leases w.client_id)) [
  | inl e ↦ rw e (promote_loop-Named f lk queue named)
  | inr (ls, e) ↦ rw e (
      put_lock-Named f (promote_to f lk w queue ls)
        (record lk { holder = w.client_id; token = inc64 f.seq; value = w.value; queue = queue })
        (λ j. rw (emit_locks, get-put)) named)
]

pub release_held-Named :
    (f : Fsm) (x : Bytes) (o : Option Lock) → Named f → Named (release_held f x o)
unfolding release_held promote
release_held-Named f x none named = named
release_held-Named f x (some lk) named =
    ite-elim Named (lk.holder ≟ x) _ _ (λ _. promote_loop-Named f lk lk.queue named) (λ _. named)

-- The first loop keeps every lock under its name.
pub release_all-Named :
    (f : Fsm) (x : Bytes) (names : List Bytes) → Named f → Named (release_all f x names)
unfolding release_all
release_all-Named f x [] named = named
release_all-Named f x (name ∷ names) named =
    release_all-Named (release_held f x (get f.locks name)) x names
      (release_held-Named f x (get f.locks name) named)

pub dequeue-Named : (f : Fsm) (x name : Bytes) → Named f → Named (dequeue f x (get f.locks name))
dequeue-Named f x name named = elim (Option-cases (get f.locks name)) [
  | inl e ↦ rw e (unfold dequeue in named)
  | inr (lk, e) ↦ elim (Option-cases (remove_first x lk.queue)) [
    | inl k ↦ rw e (unfold dequeue in rw k named)
    | inr (q, k) ↦ rw e (
        unfold dequeue in
        rw k (
          put_lock-Named f (record f { locks = put f.locks lk.name (record lk { queue = q }) })
            (record lk { queue = q }) (λ j. get-put _ _ _ _) named))
  ]
]

dequeue-Advance :
    (f : Fsm) (x name : Bytes) → Named f → Advance 0 f (dequeue f x (get f.locks name))
dequeue-Advance f x name named = elim (Option-cases (get f.locks name)) [
  | inl e ↦ rw e (unfold dequeue in Advance-refl f)
  | inr (lk, e) ↦ elim (Option-cases (remove_first x lk.queue)) [
    | inl k ↦ rw e (unfold dequeue in rw k (Advance-refl f))
    | inr (q, k) ↦ rw e (
        unfold dequeue in
        rw k (
          kept-Advance 0 f _ lk.name lk (record lk { queue = q }) (λ j. get-put _ _ _ _)
            (subst (λ n. get f.locks n ≡ some lk) (sym (LockNamed-found f name named e)) e)
            (refl, refl) (omega arith) (omega arith)))
  ]
]

dequeue_all-Advance :
    (f : Fsm) (x : Bytes) (names : List Bytes) → Named f → Advance 0 f (dequeue_all f x names)
unfolding dequeue_all
dequeue_all-Advance f x [] named = Advance-refl f
dequeue_all-Advance f x (name ∷ names) named =
    let g = dequeue f x (get f.locks name) in
    Advance-trans 0 0 f g _ (dequeue-Advance f x name named)
      (dequeue_all-Advance g x names (dequeue-Named f x name named))

-- How many tokens dropping the lease can take.
abbrev pub drop_cost : Lease → ℕ
drop_cost ls = length (sorted_keys ls.held)

pub drop_lease-Advance :
    (f : Fsm) (ls : Lease)
    → Named f
    → f.seq + drop_cost ls < u64_mod
    → Advance (drop_cost ls) f (drop_lease f ls)
unfolding drop_lease
drop_lease-Advance f ls named room =
    let g = release_all f ls.client_id (sorted_keys ls.held) in
    let h = dequeue_all g ls.client_id (waiting_now g ls) in
    let first = release_all-Advance f ls.client_id (sorted_keys ls.held) room in
    let second =
      dequeue_all-Advance g ls.client_id (waiting_now g ls)
        (release_all-Named f ls.client_id (sorted_keys ls.held) named) in
    Advance-weaken (drop_cost ls + 0) (drop_cost ls) f _ (omega arith) (
      Advance-trans (drop_cost ls) 0 f h _
        (Advance-weaken (drop_cost ls + 0) (drop_cost ls) f h (omega arith)
          (Advance-trans (drop_cost ls) 0 f g h first second))
        (Advance-same h _ refl refl))

pub lease_grant-Advance :
    (f : Fsm) (client : Bytes) (ttl now : ℕ) → Advance 0 f (lease_grant f client ttl now).0
unfolding lease_grant
lease_grant-Advance f client ttl now = Advance-same f _ refl refl

pub lease_keep_alive-Advance :
    (f : Fsm) (client : Bytes) (now : ℕ) → Advance 0 f (lease_keep_alive f client now).0
unfolding lease_keep_alive
lease_keep_alive-Advance f client now = elim (Option-cases (get f.leases client)) [
  | inl e ↦ rw e (Advance-refl f)
  | inr (ls, e) ↦ rw e (Advance-same f _ refl refl)
]

-- What a lease that is found costs to drop.
abbrev pub found_cost : Option Lease → ℕ
found_cost none = 0
found_cost (some ls) = drop_cost ls

module _ (f : Fsm) (client : Bytes) (named : Named f)
    (room : f.seq + found_cost (get f.leases client) < u64_mod) where
  found_room : (ls : Lease) → get f.leases client ≡ some ls → f.seq + drop_cost ls < u64_mod
  found_room ls e = subst (λ o. f.seq + found_cost o < u64_mod) e room

  pub lease_revoke-Advance : Advance (found_cost (get f.leases client)) f (lease_revoke f client).0
  unfolding lease_revoke
  lease_revoke-Advance = elim (Option-cases (get f.leases client)) [
    | inl e ↦ rw e (Advance-refl f)
    | inr (ls, e) ↦ rw e (drop_lease-Advance f ls named (found_room ls e))
  ]

  pub lease_expire-Advance :
      (now : ℕ) → Advance (found_cost (get f.leases client)) f (lease_expire f client now).0
  unfolding lease_expire
  lease_expire-Advance now = elim (Option-cases (get f.leases client)) [
    | inl e ↦ rw e (Advance-refl f)
    | inr (ls, e) ↦ rw e (
        if-elim (λ (r : Fsm × CommandResult). Advance (drop_cost ls) f r.0)
          (signed_ltb now ls.expire_at) _ _
          (λ _. Advance-weaken 0 (drop_cost ls) f f (omega arith) (Advance-refl f))
          (λ _. drop_lease-Advance f ls named (found_room ls e)))
  ]
