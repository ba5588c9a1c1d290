-- ===== src/Fsm/Snapshot/Copies.antt =====
-- What the loops of `Restore` put into the two maps, before the indexes are rebuilt.
use mathlib.Core.Option
use zuul.Shared.{
  Bytes, some, List, [], ◌∷◌, map, ◌≡◌, refl, arith, bytes_key, Option-cases, inl, inr, ◌∙◌, ap,
  subst,
}
use zuul.GoMap.{GoMap, get, sorted_keys}
use zuul.GoMap.Copy.{save_all, load_all, get-load-save}
use zuul.Fsm.Types.{Fsm, Lock, Lease, Waiter}
use zuul.Fsm.Snapshot.{
  save_waiter, load_waiter, save_lock, load_lock, save_lease, load_lease, LockState, LeaseState,
}
use zuul.Fsm.WellFormed.{Wf, lock-Ok, lease-client}

load-save_waiters : (q : List Waiter) → map load_waiter (map save_waiter q) ≡ q
unfolding save_waiter load_waiter
load-save_waiters [] = refl
load-save_waiters (w ∷ q) = ap (λ (r : List Waiter). w ∷ r) (load-save_waiters q)

load-save_lock : (lk : Lock) → load_lock (save_lock lk.name lk) ≡ lk
unfolding load_lock save_lock
load-save_lock lk = ground (arith, load-save_waiters lk.queue)

name-save_lock : (k : Bytes) (lk : Lock) → (save_lock k lk).name ≡ k
unfolding save_lock
name-save_lock k lk = refl

client-save_lease : (k : Bytes) (ls : Lease) → (save_lease k ls).client_id ≡ k
unfolding save_lease
client-save_lease k ls = refl

-- The locks as they come out of the loop that fills their map.
abbrev pub loaded_locks : Fsm → GoMap Bytes Lock
loaded_locks f =
    load_all (λ (l : LockState). l.name) load_lock []
      (save_all save_lock f.locks (sorted_keys f.locks))

abbrev pub loaded_leases : Fsm → GoMap Bytes Lease
loaded_leases f =
    load_all (λ (l : LeaseState). l.client_id) load_lease []
      (save_all save_lease f.leases (sorted_keys f.leases))

pub get-loaded_locks : (f : Fsm) → Wf [] f → (n : Bytes) → get (loaded_locks f) n ≡ get f.locks n
get-loaded_locks f h n =
    get-load-save save_lock (λ (l : LockState). l.name) load_lock f.locks
      (λ k lk _. name-save_lock k lk) n
    ∙ same
  where
    same : Option.map (λ lk. load_lock (save_lock n lk)) (get f.locks n) ≡ get f.locks n
    same = elim (Option-cases (get f.locks n)) [
      | inl e ↦ rw e
      | inr (lk, e) ↦ rw e (
          ap (λ (l : Lock). some l)
            (subst (λ k. load_lock (save_lock k lk) ≡ lk) (lock-Ok h e).0 (load-save_lock lk)))
    ]

-- A lease with its indexes emptied.
abbrev pub bare : Lease → Lease
bare ls = record ls { held = []; waiting = [] }

pub get-loaded_leases :
    (f : Fsm) → Wf [] f → (c : Bytes) → get (loaded_leases f) c ≡ Option.map bare (get f.leases c)
get-loaded_leases f h c =
    get-load-save save_lease (λ (l : LeaseState). l.client_id) load_lease f.leases
      (λ k ls _. client-save_lease k ls) c
    ∙ same
  where
    same :
        Option.map (λ ls. load_lease (save_lease c ls)) (get f.leases c)
        ≡ Option.map bare (get f.leases c)
    same = elim (Option-cases (get f.leases c)) [
      | inl e ↦ rw e
      | inr (ls, e) ↦ rw e (unfold load_lease save_lease in ground (arith, (lease-client h e).0))
    ]
