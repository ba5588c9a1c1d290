-- ===== src/Fsm/WellFormed/Acquire.antt =====
-- Acquiring a lock or entering an election keeps the shard well formed.
use zuul.Shared.{
  ℕ, Bytes, Bool, true, false, Option, none, some, List, [], ◌∷◌, ◌++◌, ite, ◌≟◌, ◌≡◌, ◌≢◌,
  bytes_key, arith, inc64, refl, if◌then◌else◌, Bool-cases, inl, inr, Option-cases, subst,
}
use zuul.GoMap.{get, has, put, delete, get-put, get-delete}
use zuul.Fsm.Types.{Fsm, Lock, Lease, Waiter, emit}
use zuul.Fsm.Locks.{grant, entry_of, enqueue, acquire_leased, acquire}
use zuul.Fsm.WellFormed.Defs.{lease-client, Wf, Distinct, queued}
use zuul.Fsm.WellFormed.Update.{Updates, Wf-update}

pub emit_locks :
    (f : Fsm) (k h : Bytes) (t : ℕ) (v : Option Bytes) → (emit f k h t v).locks ≡ f.locks
unfolding emit
emit_locks f k h t v = ground arith

pub emit_leases :
    (f : Fsm) (k h : Bytes) (t : ℕ) (v : Option Bytes) → (emit f k h t v).leases ≡ f.leases
unfolding emit
emit_leases f k h t v = ground arith

module _ (f : Fsm) (name : Bytes) (ls : Lease) (value : Option Bytes) (h : Wf [] f)
    (leased : get f.leases ls.client_id ≡ some ls) (free : get f.locks name ≡ none) where
  grant-Updates :
      Updates [] f
        (grant f name ls value).0
        name
        (some (record {
          name = name;
          holder = ls.client_id;
          token = inc64 f.seq;
          value = value;
          queue = [];
        }))
        ls.client_id
        (some (record ls { held = put ls.held name tt; waiting = delete ls.waiting name }))
  unfolding grant entry_of
  grant-Updates = record {
    locks = λ j. rw (emit_locks, get-put, free);
    leases = λ d. rw (emit_leases, get-put);
    lock_ok = ground (arith, h.lease_ok ls.client_id);
    lease_ok = ground (arith, h.lease_ok ls.client_id);
    held_here = λ k. ground (arith, get-put ls.held name tt name);
    waiting_here = λ k. ground (arith, get-delete ls.waiting name name);
    held_elsewhere = λ j k _. ground (arith, get-put ls.held name tt j);
    waiting_elsewhere = λ j k _. ground (arith, get-delete ls.waiting name j);
    held_others = λ d k _. ground arith;
    waiting_others = λ d k _. ground arith;
  }

  grant-Wf : Wf [] (grant f name ls value).0
  grant-Wf = Wf-update h grant-Updates

queued-append :
    (q : List Waiter) (w : Waiter) (c : Bytes)
    → queued (q ++ (w ∷ [])) c ≡ (if queued q c then true else ite (w.client_id ≟ c) true false)
queued-append [] w c = ground arith
queued-append (v ∷ q) w c = ground (arith, queued-append q w c)

Distinct-append :
    (q : List Waiter) (w : Waiter)
    → Distinct q
    → queued q w.client_id ≡ false
    → Distinct (q ++ (w ∷ []))
Distinct-append [] w d n = (refl, tt)
Distinct-append (v ∷ q) w d n = ground (arith, queued-append q w v.client_id, Distinct-append q w)

module _ (f : Fsm) (name : Bytes) (value : Option Bytes) (ls : Lease) (lk : Lock) (h : Wf [] f)
    (leased : get f.leases ls.client_id ≡ some ls) (found : get f.locks name ≡ some lk)
    (other : lk.holder ≢ ls.client_id) where
  module _ (fresh : has ls.waiting name ≡ false) where
    w : Waiter
    w = record { client_id = ls.client_id; seq = inc64 f.seq; value = value }

    enqueue-Updates :
        Updates [] f
          (enqueue f name ls.client_id value ls lk).0
          name
          (some (record lk { queue = lk.queue ++ (w ∷ []) }))
          ls.client_id
          (some (record ls { waiting = put ls.waiting name tt }))
    unfolding enqueue w
    enqueue-Updates = record {
      locks = λ j. ground (
        arith,
        get-put f.locks name (record lk { queue = lk.queue ++ (w ∷ []) }) j,
        h.lock_ok name,
      );
      leases = λ d.
          ground (
            arith,
            get-put f.leases ls.client_id (record ls { waiting = put ls.waiting name tt }) d,
          );
      lock_ok = ground (
        arith,
        h.lock_ok name,
        Distinct-append lk.queue w,
        queued-append lk.queue w lk.holder,
        queued-append lk.queue w [],
        h.lease_ok ls.client_id,
        h.waiting_index ls.client_id name,
      );
      lease_ok = ground (arith, h.lease_ok ls.client_id);
      held_here = λ k. ground (arith, h.held_index ls.client_id name);
      waiting_here = λ k.
          ground (arith, get-put ls.waiting name tt name, queued-append lk.queue w ls.client_id);
      held_elsewhere = λ j k _. ground (arith);
      waiting_elsewhere = λ j k _. ground (arith, get-put ls.waiting name tt j);
      held_others = λ d k _. ground (arith);
      waiting_others = λ d k _. ground (arith, queued-append lk.queue w d);
    }

  enqueue-Wf : Wf [] (enqueue f name ls.client_id value ls lk).0
  enqueue-Wf = elim (Bool-cases (has ls.waiting name)) [
    | inl old ↦ unfold enqueue in rw old h
    | inr fresh ↦ Wf-update h (enqueue-Updates fresh)
  ]

-- A lock that is found has a holder, so a free key is one that is not found.
acquire_leased-Wf :
    (f : Fsm) (name : Bytes) (value : Option Bytes) (try : Bool) (ls : Lease) (o : Option Lock)
    → Wf [] f
    → get f.leases ls.client_id ≡ some ls
    → get f.locks name ≡ o
    → Wf [] (acquire_leased f name ls.client_id value try ls o).0
unfolding acquire_leased
acquire_leased-Wf f name value try ls none h e k = grant-Wf f name ls value h e k
acquire_leased-Wf f name value true ls (some lk) h e k = ground (arith, h.lock_ok name)
acquire_leased-Wf f name value false ls (some lk) h e k =
    ground (arith, h.lock_ok name, enqueue-Wf f name value ls lk h e k)

acquire_leased_as-Wf :
    (f : Fsm) (name client : Bytes) (value : Option Bytes) (try : Bool) (ls : Lease)
    → Wf [] f
    → ls.client_id ≡ client
    → get f.leases client ≡ some ls
    → Wf [] (acquire_leased f name client value try ls (get f.locks name)).0
acquire_leased_as-Wf f name client value try ls h q =
    subst
      (λ c.
        get f.leases c ≡ some ls
        → Wf [] (acquire_leased f name c value try ls (get f.locks name)).0)
      q (λ e. acquire_leased-Wf f name value try ls (get f.locks name) h e refl)

pub acquire-Wf :
    (f : Fsm) (name client : Bytes) (value : Option Bytes) (try : Bool)
    → Wf [] f
    → Wf [] (acquire f name client value try).0
unfolding acquire
acquire-Wf f name client value try h = elim (Option-cases (get f.leases client)) [
  | inl e ↦ rw e h
  | inr (ls, e) ↦ rw e (acquire_leased_as-Wf f name client value try ls h (lease-client h e).0 e)
]
