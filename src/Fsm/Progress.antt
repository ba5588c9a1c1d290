-- ===== src/Fsm/Progress.antt =====
-- How the queue of a key moves on: `release`, `promote` and `acquire` of internal/raft/fsm/locks.go over a
-- whole sequence of holders.
use zuul.Shared.{
  true, ℕ, zero, suc, Bytes, Option, none, some, List, [], ◌∷◌, ◌++◌, length, ◌≟◌, ◌≡◌, refl, ap,
  ◌∙◌, arith, bytes_key, inc64, Option-cases, inl, inr, if_pos,
}
use zuul.GoMap.{get, has}
use zuul.Fsm.Types.{Fsm, Lock, Waiter, release_lock, emit}
use zuul.Fsm.Locks.{forget_held, release, promote, promote_loop, promote_to}
use zuul.Fsm.Apply.{apply, dispatch}
use zuul.Fsm.WellFormed.{Wf, lock-Ok}
use zuul.Fsm.WellFormed.Apply.{apply-Wf}
use zuul.Fsm.Handover.{
  handed, release-handed, refusal-ok, forget_held-has, forget_held-rest, waiter-lease,
}

-- The holder of the key, if there is one, releases it under its token.
unfoldable pub hand_on : Fsm → Bytes → Fsm
hand_on f name = released_by (get f.locks name)
  where
    released_by : Option Lock → Fsm
    released_by none = f
    released_by (some lk) = (apply f (some (release_lock name lk.holder lk.token))).0

-- `n` holders in turn.
unfoldable pub hand_on_times : ℕ → Fsm → Bytes → Fsm
unfolding hand_on
hand_on_times zero f name = f
hand_on_times (suc n) f name = hand_on_times n (hand_on f name) name

abbrev pub counted : ℕ → ℕ → ℕ
counted zero seq = seq
counted (suc n) seq = counted n (inc64 seq)

emit-seq : (f : Fsm) (n h : Bytes) (t : ℕ) (v : Option Bytes) → (emit f n h t v).seq ≡ f.seq
unfolding emit
emit-seq f n h t v = ground arith

promote_loop-seq :
    (f : Fsm) (lk : Lock) (w : Waiter) (q : List Waiter)
    → has f.leases w.client_id ≡ true
    → (promote_loop f lk (w ∷ q)).seq ≡ inc64 f.seq
unfolding promote_loop promote_to
promote_loop-seq f lk w q h = elim (Option-cases (get f.leases w.client_id)) [
  | inl e ↦ ground (arith, e, h)
  | inr (ls, e) ↦ rw e (emit-seq _ _ _ _ _)
]

release-seq :
    (f : Fsm) (name : Bytes) (lk : Lock) (w : Waiter) (q : List Waiter)
    → Wf [] f
    → get f.locks name ≡ some lk
    → lk.queue ≡ w ∷ q
    → (apply f (some (release_lock name lk.holder lk.token))).0.seq ≡ inc64 f.seq
unfolding apply dispatch release promote
release-seq f name lk w q h e p =
    let g = record f { revision = inc64 f.revision } in
    let left = forget_held g name (get f.leases lk.holder) in
    rw (e, refusal-ok g name lk (lock-Ok h e).1)
      (ap (λ r. (promote_loop left lk r).seq) p
        ∙ promote_loop-seq left lk w q (
            forget_held-has g name w.client_id (get f.leases lk.holder)
              (waiter-lease f name lk w q h e p))
        ∙ ap inc64 (forget_held-rest g name (get f.leases lk.holder)).1)

-- One holder's turn: the head of the queue has the key, under the next token.
hand_on-head :
    (f : Fsm) (name : Bytes) (lk : Lock) (w : Waiter) (q : List Waiter)
    → Wf [] f
    → get f.locks name ≡ some lk
    → lk.queue ≡ w ∷ q
    → Wf [] (hand_on f name)
      × ((hand_on f name).seq ≡ inc64 f.seq)
      × (get (hand_on f name).locks name ≡ handed lk (w ∷ q) f.seq)
unfolding hand_on
hand_on-head f name lk w q h e p = rw e (
  apply-Wf f (release_lock name lk.holder lk.token) tt h,
  release-seq f name lk w q h e p,
  (release-handed f name lk h e).0 name
      ∙ if_pos (name ≟ name) refl _ _
      ∙ ap (λ r. handed lk r f.seq) p,
)

-- In a well-formed shard a client that waits for a key behind `ahead` others holds it once the holder and
-- each of those others have released it in turn: with the waiting client's value, the clients behind it
-- still queued in their order, and the fencing token counted on by one for each release.
pub queue_progress :
    (f : Fsm) (name : Bytes) (lk : Lock) (ahead : List Waiter) (w : Waiter) (behind : List Waiter)
    → Wf [] f
    → get f.locks name ≡ some lk
    → lk.queue ≡ ahead ++ w ∷ behind
    → get (hand_on_times (suc (length ahead)) f name).locks name
      ≡ some (record lk {
        holder = w.client_id;
        token = counted (suc (length ahead)) f.seq;
        value = w.value;
        queue = behind;
      })
unfolding hand_on_times
queue_progress f name lk [] w behind h e p = (hand_on-head f name lk w behind h e p).2
queue_progress f name lk (a ∷ rest) w behind h e p =
    let head = hand_on-head f name lk a (rest ++ w ∷ behind) h e p in
    queue_progress (hand_on f name) name _ rest w behind head.0 head.2 refl ∙ rw head.1 refl
