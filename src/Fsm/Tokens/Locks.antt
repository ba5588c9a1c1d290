-- ===== src/Fsm/Tokens/Locks.antt =====
-- The operations on locks move the counter by at most one.
use zuul.Shared.{
  ite-elim, if-elim, ℕ, ◌+◌, ◌<◌, Bytes, Bool, Option, none, some, List, [], ◌∷◌, ◌≡◌, inl, inr,
  arith, bytes_key, refl, sym, subst, Option-cases, Bool-cases, inc64, u64_mod, ite, ◌≟◌, if_pos,
  if_neg, ◌∙◌,
}
use zuul.GoMap.{get, put, get-put, get-delete, has}
use zuul.Fsm.Types.{CommandResult, Fsm, Lock, Lease, Waiter, emit}
use zuul.Fsm.Locks.{
  grant, entry_of, enqueue, acquire_leased, acquire, promote_to, promote_loop, promote, refusal,
  forget_held, release, forget_waiting, cancel_wait, remove_first, proclaim,
}
use zuul.Fsm.Tokens.Defs.{
  Moved, Advance, LockNamed, Named, fresh-Advance, kept-Advance, Moved-refl, Advance-refl,
  Advance-trans, Advance-same, Advance-weaken,
}
use zuul.Fsm.WellFormed.{emit_locks}

pub emit_seq : (f : Fsm) (k h : Bytes) (t : ℕ) (v : Option Bytes) → (emit f k h t v).seq ≡ f.seq
unfolding emit
emit_seq f k h t v = ground arith

-- The counter does not wrap.
pub inc64-suc : (s : ℕ) → s + 1 < u64_mod → inc64 s ≡ s + 1
inc64-suc s h = omega arith

pub LockNamed-found :
    (f : Fsm) {lk : Lock} (name : Bytes) → Named f → get f.locks name ≡ some lk → lk.name ≡ name
LockNamed-found f name named e = subst (LockNamed name) e (named name)

grant-Advance :
    (f : Fsm) (name : Bytes) (ls : Lease) (value : Option Bytes)
    → f.seq + 1 < u64_mod
    → Advance 1 f (grant f name ls value).0
unfolding grant
grant-Advance f name ls value room =
    fresh-Advance f _ name
      (record (entry_of name (get f.locks name)) {
        holder = ls.client_id;
        token = inc64 f.seq;
        value = value;
      })
      (λ j. rw (emit_locks, get-put)) (emit_seq _ _ _ _ _ ∙ inc64-suc f.seq room)
      (inc64-suc f.seq room)

enqueue-Advance :
    (f : Fsm) (name client : Bytes) (value : Option Bytes) (ls : Lease) (lk : Lock)
    → f.seq + 1 < u64_mod
    → lk.name ≡ name
    → get f.locks name ≡ some lk
    → Advance 1 f (enqueue f name client value ls lk).0
unfolding enqueue
enqueue-Advance f name client value ls lk room named found =
    elim (Bool-cases (has ls.waiting name)) [
      | inl e ↦ rw e (Advance-weaken 0 1 f f (omega arith) (Advance-refl f))
      | inr e ↦ rw e (
          kept-Advance 1 f _ lk.name lk (record lk { queue = _ }) (λ j. get-put _ _ _ _)
            (subst (λ n. get f.locks n ≡ some lk) (sym named) found) (refl, refl)
            (omega (arith, inc64-suc f.seq room)) (omega (arith, inc64-suc f.seq room)))
    ]

acquire_leased-Advance :
    (f : Fsm) (name client : Bytes) (value : Option Bytes) (try : Bool) (ls : Lease)
    (o : Option Lock)
    → f.seq + 1 < u64_mod
    → Named f
    → get f.locks name ≡ o
    → Advance 1 f (acquire_leased f name client value try ls o).0
unfolding acquire_leased
acquire_leased-Advance f name client value try ls none room named found =
    grant-Advance f name ls value room
acquire_leased-Advance f name client value try ls (some lk) room named found =
    let granted = grant-Advance f name ls value room in
    let waiting =
      enqueue-Advance f name client value ls lk room (LockNamed-found f name named found) found in
    let same : Advance 1 f f = Advance-weaken 0 1 f f (omega arith) (Advance-refl f) in
    let P = λ (r : Fsm × CommandResult). Advance 1 f r.0 in
    ite-elim P (lk.holder ≟ []) _ _ (λ _. granted)
      λ _.
        ite-elim P (lk.holder ≟ client) _ _ (λ _. same)
          λ _. if-elim P try _ _ (λ _. same) (λ _. waiting)

pub acquire-Advance :
    (f : Fsm) (name client : Bytes) (value : Option Bytes) (try : Bool)
    → f.seq + 1 < u64_mod
    → Named f
    → Advance 1 f (acquire f name client value try).0
unfolding acquire
acquire-Advance f name client value try room named = elim (Option-cases (get f.leases client)) [
  | inl e ↦ rw e (Advance-weaken 0 1 f f (omega arith) (Advance-refl f))
  | inr (ls, e) ↦
      rw e (acquire_leased-Advance f name client value try ls (get f.locks name) room named refl)
]

Moved-deleted : (s : ℕ) (name n : Bytes) (o : Option Lock) → Moved s s o (ite (name ≟ n) none o)
Moved-deleted s name n o = elim (name ≟ n) [
  | yes e ↦ rw (if_pos (name ≟ n) e) tt
  | no d ↦ rw (if_neg (name ≟ n) d) (Moved-refl s s o)
]

-- A key is handed over, whatever leases the waiters have.
promote_loop-Advance :
    (f : Fsm) (lk : Lock) (queue : List Waiter)
    → f.seq + 1 < u64_mod
    → Advance 1 f (promote_loop f lk queue)
unfolding promote_loop promote_to
promote_loop-Advance f lk [] room = record {
  grows = rw emit_seq (omega arith);
  at_most = rw emit_seq (omega arith);
  moved =
      λ n. rw (emit_locks, emit_seq, get-delete) (Moved-deleted f.seq lk.name n (get f.locks n));
}
promote_loop-Advance f lk (w ∷ queue) room = elim (Option-cases (get f.leases w.client_id)) [
  | inl e ↦ rw e (promote_loop-Advance f lk queue room)
  | inr (ls, e) ↦ rw e (
      fresh-Advance f _ lk.name
        (record lk { holder = w.client_id; token = inc64 f.seq; value = w.value; queue = queue })
        (λ j. rw (emit_locks, get-put)) (emit_seq _ _ _ _ _ ∙ inc64-suc f.seq room)
        (inc64-suc f.seq room))
]

pub promote-Advance : (f : Fsm) (lk : Lock) → f.seq + 1 < u64_mod → Advance 1 f (promote f lk)
unfolding promote
promote-Advance f lk room = promote_loop-Advance f lk lk.queue room

forget_held-Advance :
    (f : Fsm) (name : Bytes) (o : Option Lease) → Advance 0 f (forget_held f name o)
unfolding forget_held
forget_held-Advance f name none = Advance-refl f
forget_held-Advance f name (some ls) = Advance-same f _ refl refl

pub release-Advance :
    (f : Fsm) (name client : Bytes) (token : ℕ)
    → f.seq + 1 < u64_mod
    → Advance 1 f (release f name client token).0
unfolding release
release-Advance f name client token room =
    let same : Advance 1 f f = Advance-weaken 0 1 f f (omega arith) (Advance-refl f) in
    elim (Option-cases (get f.locks name)) [
      | inl e ↦ rw e (unfold refusal in same)
      | inr (lk, e) ↦ elim (Option-cases (refusal f name client token (some lk))) [
        | inl k ↦ rw (e, k) (handed lk)
        | inr (r, k) ↦ rw (e, k) same
      ]
    ]
  where
    g : Fsm
    g = forget_held f name (get f.leases client)

    handed : (lk : Lock) → Advance 1 f (promote g lk)
    handed lk =
        let first = forget_held-Advance f name (get f.leases client) in
        Advance-trans 0 1 f g _ first (promote-Advance g lk (omega arith))

cancelled-Advance :
    (f : Fsm) (name client : Bytes) (lk : Lock) (queue : List Waiter)
    → lk.name ≡ name
    → get f.locks name ≡ some lk
    → Advance 0 f (
        forget_waiting
          (record f { locks = put f.locks lk.name (record lk { queue = queue }) })
          name
          (get f.leases client))
cancelled-Advance f name client lk queue named found =
    let g : Fsm = record f { locks = put f.locks lk.name (record lk { queue = queue }) } in
    Advance-trans 0 0 f g _
      (kept-Advance 0 f g lk.name lk (record lk { queue = queue }) (λ j. get-put _ _ _ _)
        (subst (λ n. get f.locks n ≡ some lk) (sym named) found) (refl, refl) (omega arith)
        (omega arith))
      (forgotten g (get f.leases client))
  where
    forgotten : (g : Fsm) (o : Option Lease) → Advance 0 g (forget_waiting g name o)
    forgotten g none = unfold forget_waiting in Advance-refl g
    forgotten g (some ls) = unfold forget_waiting in Advance-same g _ refl refl

pub cancel_wait-Advance :
    (f : Fsm) (name client : Bytes) → Named f → Advance 0 f (cancel_wait f name client).0
unfolding cancel_wait
cancel_wait-Advance f name client named = elim (Option-cases (get f.locks name)) [
  | inl e ↦ rw e (Advance-refl f)
  | inr (lk, e) ↦ elim (Option-cases (remove_first client lk.queue)) [
    | inl k ↦ rw (e, k) (Advance-refl f)
    | inr (q, k) ↦
        rw (e, k) (cancelled-Advance f name client lk q (LockNamed-found f name named e) e)
  ]
]

pub proclaim-Advance :
    (f : Fsm) (name client : Bytes) (token : ℕ) (value : Option Bytes)
    → Named f
    → Advance 0 f (proclaim f name client token value).0
unfolding proclaim
proclaim-Advance f name client token value named = elim (Option-cases (get f.locks name)) [
  | inl e ↦ rw e (unfold refusal in Advance-refl f)
  | inr (lk, e) ↦ elim (Option-cases (refusal f name client token (some lk))) [
    | inl k ↦ rw (e, k) (published lk e)
    | inr (r, k) ↦ rw (e, k) (Advance-refl f)
  ]
]
  where
    published :
        (lk : Lock)
        → get f.locks name ≡ some lk
        → Advance 0 f (
            emit
              (record f { locks = put f.locks lk.name (record lk { value = value }) })
              name
              lk.holder
              lk.token
              value)
    published lk e =
        kept-Advance 0 f _ lk.name lk (record lk { value = value }) (λ j. rw (emit_locks, get-put))
          (subst (λ n. get f.locks n ≡ some lk) (sym (LockNamed-found f name named e)) e)
          (refl, refl) (rw emit_seq (omega arith)) (rw emit_seq (omega arith))
