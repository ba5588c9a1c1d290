-- ===== src/Fsm/Handover.antt =====
-- What a grant and a release promise the clients: the answers of `status` after `acquire` and `release`
-- of internal/raft/fsm/locks.go.
use zuul.Shared.{
  ℕ, Bytes, Bool, true, Option, none, some, List, [], ◌∷◌, ite, ◌≟◌, ◌≡◌, ◌≢◌, refl, ap, ◌∙◌, arith,
  bytes_key, inc64, Option-cases, inl, inr, if_pos, ite-elim, if-elim,
}
use zuul.GoMap.{get, has, put, delete, get-put, get-delete}
use zuul.Fsm.Types.{
  Fsm, Lock, Lease, Waiter, release_lock, CommandResult, granted, released, result, result_key,
  emit, ok,
}
use zuul.Fsm.Locks.{
  acquire, acquire_leased, grant, enqueue, release, promote, promote_loop, promote_to, forget_held,
  refusal,
}
use zuul.Fsm.Apply.{apply, dispatch}
use zuul.Fsm.WellFormed.{Wf, lock-Ok, lease-client}

-- The holder and the token that the shard has for a key.
abbrev pub owner_of : Option Lock → Option (Bytes × ℕ)
owner_of none = none
owner_of (some lk) = some (lk.holder, lk.token)

-- The key as the head of its queue takes it over.
abbrev pub handed : Lock → List Waiter → ℕ → Option Lock
handed lk [] seq = none
handed lk (w ∷ q) seq =
    some (record lk { holder = w.client_id; token = inc64 seq; value = w.value; queue = q })

emit-locks : (f : Fsm) (n h : Bytes) (t : ℕ) (v : Option Bytes) → (emit f n h t v).locks ≡ f.locks
unfolding emit
emit-locks f n h t v = ground arith

-- In a well-formed shard whoever waits has a lease.
pub waiter-lease :
    (f : Fsm) (n : Bytes) (lk : Lock) (w : Waiter) (q : List Waiter)
    → Wf [] f
    → get f.locks n ≡ some lk
    → lk.queue ≡ w ∷ q
    → has f.leases w.client_id ≡ true
waiter-lease f n lk w q h e p =
    let ok = lock-Ok h e in
    let named : w.client_id ≢ [] = λ z. ground (arith, p, z, ok.4) in
    ground (arith, e, p, h.waiting_index w.client_id n named)

pub forget_held-has :
    (f : Fsm) (name d : Bytes) (o : Option Lease)
    → has f.leases d ≡ true
    → has (forget_held f name o).leases d ≡ true
unfolding forget_held
forget_held-has f name d none h = h
forget_held-has f name d (some ls) h =
    ground (arith, h, get-put f.leases ls.client_id (record ls { held = delete ls.held name }) d)

pub forget_held-rest :
    (f : Fsm) (name : Bytes) (o : Option Lease)
    → ((forget_held f name o).locks ≡ f.locks) × ((forget_held f name o).seq ≡ f.seq)
unfolding forget_held
forget_held-rest f name none = (refl, refl)
forget_held-rest f name (some ls) = (refl, refl)

promote_to-locks :
    (f : Fsm) (lk : Lock) (w : Waiter) (q : List Waiter) (ls : Lease)
    → (promote_to f lk w q ls).locks
      ≡ put f.locks lk.name
          (record lk { holder = w.client_id; token = inc64 f.seq; value = w.value; queue = q })
unfolding promote_to
promote_to-locks f lk w q ls = emit-locks _ _ _ _ _

promote-handed :
    (f : Fsm) (lk : Lock) (q : List Waiter) (k : Bytes)
    → ((w : Waiter) (ws : List Waiter) → q ≡ w ∷ ws → has f.leases w.client_id ≡ true)
    → get (promote_loop f lk q).locks k ≡ ite (lk.name ≟ k) (handed lk q f.seq) (get f.locks k)
unfolding promote_loop
promote-handed f lk [] k h =
    rw (emit-locks (record f { locks = delete f.locks lk.name }) lk.name [] 0 none)
      (get-delete f.locks lk.name k)
promote-handed f lk (w ∷ q) k h = elim (Option-cases (get f.leases w.client_id)) [
  | inl e ↦ ground (arith, e, h w q refl)
  | inr (ls, e) ↦ rw e (rw (promote_to-locks f lk w q ls) (get-put f.locks lk.name _ k))
]

pub refusal-ok :
    (f : Fsm) (name : Bytes) (lk : Lock)
    → lk.holder ≢ []
    → refusal f name lk.holder lk.token (some lk) ≡ none
unfolding refusal
refusal-ok f name lk h = ground (arith, h)

-- The holder's key is handed on, its lease having forgotten it.
handed-on :
    (f : Fsm) (name : Bytes) (lk : Lock) (o : Option Lease) (k : Bytes)
    → Wf [] f
    → get f.locks name ≡ some lk
    → get (promote (forget_held f name o) lk).locks k
      ≡ ite (name ≟ k) (handed lk lk.queue f.seq) (get f.locks k)
unfolding promote
handed-on f name lk o k h e =
    promote-handed (forget_held f name o) lk lk.queue k
      (λ w q p. forget_held-has f name w.client_id o (waiter-lease f name lk w q h e p))
    ∙ rw ((forget_held-rest f name o).0, (forget_held-rest f name o).1, (lock-Ok h e).0) refl

-- In a well-formed shard the holder's release, under its token, is answered RELEASED. The key goes to the
-- longest waiting client under the next fencing token, with that client's value and the rest of the
-- queue, or is free if nobody waits; no other key changes.
pub release-handed :
    (f : Fsm) (name : Bytes) (lk : Lock)
    → Wf [] f
    → get f.locks name ≡ some lk
    → let out = apply f (some (release_lock name lk.holder lk.token)) in
      ((k : Bytes) → get out.0.locks k ≡ ite (name ≟ k) (handed lk lk.queue f.seq) (get f.locks k))
      × ((r : CommandResult) × (out.1 ≡ ok r) × (r.outcome ≡ released))
unfolding apply dispatch release promote result_key result
release-handed f name lk h e =
    let g = record f { revision = inc64 f.revision } in
    let wf : Wf [] g = record {
      lock_ok = h.lock_ok;
      lease_ok = h.lease_ok;
      held_index = h.held_index;
      waiting_index = h.waiting_index;
    } in
    rw (e, refusal-ok g name lk (lock-Ok h e).1)
      ((λ k. handed-on g name lk (get g.leases lk.holder) k wf e), (_, refl, refl))

grant-owner :
    (f : Fsm) (name : Bytes) (ls : Lease) (value : Option Bytes)
    → let out = grant f name ls value in
      owner_of (get out.0.locks name) ≡ some (ls.client_id, out.1.fencing_token)
unfolding grant result_key result
grant-owner f name ls value =
    rw (emit-locks _ name ls.client_id (inc64 f.seq) value)
      (ap owner_of (get-put f.locks name _ name ∙ if_pos (name ≟ name) refl _ _))

-- The answer, if it is GRANTED, names the holder.
abbrev Names : Bytes → Bytes → Fsm × CommandResult → Type 0
Names name client (f, r) =
    r.outcome ≡ granted → owner_of (get f.locks name) ≡ some (client, r.fencing_token)

enqueue-Names :
    (f : Fsm) (name client : Bytes) (value : Option Bytes) (ls : Lease) (lk : Lock)
    → Names name client (enqueue f name client value ls lk)
unfolding enqueue result_key result
enqueue-Names f name client value ls lk =
    if-elim (Names name client) (has ls.waiting name) _ _ (λ _ q. ground (arith, q))
      (λ _ q. ground (arith, q))

acquire_leased-Names :
    (f : Fsm) (name client : Bytes) (value : Option Bytes) (try : Bool) (ls : Lease)
    (o : Option Lock)
    → ls.client_id ≡ client
    → get f.locks name ≡ o
    → Names name client (acquire_leased f name client value try ls o)
unfolding acquire_leased result_key result
acquire_leased-Names f name client value try ls none c e =
    λ _. rw (← c) (grant-owner f name ls value)
acquire_leased-Names f name client value try ls (some lk) c e =
    ite-elim (Names name client) (lk.holder ≟ []) _ _
      (λ _ _. rw (← c) (grant-owner f name ls value))
      (λ _.
        ite-elim (Names name client) (lk.holder ≟ client) _ _ (λ z _. rw (e, z) refl)
          (λ _.
            if-elim (Names name client) try _ _ (λ _ q. ground (arith, q))
              (λ _. enqueue-Names f name client value ls lk)))

-- In a well-formed shard a GRANTED answer to an acquire carries the token under which the shard then has
-- the client as the holder of the key.
pub acquire-granted :
    (f : Fsm) (name client : Bytes) (value : Option Bytes) (try : Bool)
    → Wf [] f
    → let out = acquire f name client value try in
      out.1.outcome ≡ granted → owner_of (get out.0.locks name) ≡ some (client, out.1.fencing_token)
unfolding acquire result_key result
acquire-granted f name client value try h = elim (Option-cases (get f.leases client)) [
  | inl e ↦ rw e (λ q. ground (arith, q))
  | inr (ls, e) ↦
      rw e (
        acquire_leased-Names f name client value try ls (get f.locks name) (lease-client h e).0
          refl)
]
