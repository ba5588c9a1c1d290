-- ===== src/Fsm/WellFormed/Defs.antt =====
-- The indexes of the leases, the locks that they index, and their agreement.
use zuul.Shared.{
  Bytes, Bool, true, false, Option, none, some, List, [], ◌∷◌, ite, ◌≟◌, ◌≡◌, ◌≢◌, subst, sym,
  bytes_key,
}
use zuul.GoMap.{get, has}
use zuul.Fsm.Types.{Fsm, Lock, Lease, Waiter}

-- The client waits in the queue.
abbrev pub queued : List Waiter → Bytes → Bool
queued [] c = false
queued (w ∷ q) c = ite (w.client_id ≟ c) true (queued q c)

-- No client waits twice.
abbrev pub Distinct : List Waiter → Type 0
Distinct [] = Unit
Distinct (w ∷ q) = (queued q w.client_id ≡ false) × Distinct q

abbrev pub held_by : Option Lock → Bytes → Bool
held_by none c = false
held_by (some lk) c = ite (lk.holder ≟ c) true false

abbrev pub waited_by : Option Lock → Bytes → Bool
waited_by none c = false
waited_by (some lk) c = queued lk.queue c

abbrev pub holds : Option Lease → Bytes → Bool
holds none n = false
holds (some ls) n = has ls.held n

abbrev pub waits : Option Lease → Bytes → Bool
waits none n = false
waits (some ls) n = has ls.waiting n

-- Client `c` holds key `n`, and waits for it, as the locks say.
abbrev pub is_holder : Fsm → Bytes → Bytes → Bool
is_holder f c n = held_by (get f.locks n) c

abbrev pub is_queued : Fsm → Bytes → Bytes → Bool
is_queued f c n = waited_by (get f.locks n) c

-- The same, as the leases say.
abbrev pub in_held : Fsm → Bytes → Bytes → Bool
in_held f c n = holds (get f.leases c) n

abbrev pub in_waiting : Fsm → Bytes → Bytes → Bool
in_waiting f c n = waits (get f.leases c) n

-- A lock stands under its name and has a holder; its holder does not wait, no client does twice, and
-- neither does the empty name.
abbrev pub LockOk : Bytes → Option Lock → Type 0
LockOk n none = Unit
LockOk n (some lk) =
    (lk.name ≡ n)
    × (lk.holder ≢ [])
    × Distinct lk.queue
    × (queued lk.queue lk.holder ≡ false)
    × (queued lk.queue [] ≡ false)

-- A lease stands under its client, who has a name.
abbrev pub LeaseOk : Bytes → Option Lease → Type 0
LeaseOk c none = Unit
LeaseOk c (some ls) = (ls.client_id ≡ c) × (c ≢ [])

-- The leases' indexes agree with the locks, but for the client `x`, whose lease is being dropped.
-- Between two commands `x` is the empty name, which is no client's.
pub record Wf (x : Bytes) (f : Fsm) : Type 0 where
  pub lock_ok : (n : Bytes) → LockOk n (get f.locks n)
  pub lease_ok : (c : Bytes) → LeaseOk c (get f.leases c)
  pub held_index : (c n : Bytes) → c ≢ x → in_held f c n ≡ is_holder f c n
  pub waiting_index : (c n : Bytes) → c ≢ x → in_waiting f c n ≡ is_queued f c n

pub lease-client :
    {x c : Bytes} {f : Fsm} {ls : Lease}
    → Wf x f
    → get f.leases c ≡ some ls
    → (ls.client_id ≡ c) × (c ≢ [])
lease-client {x} {c} {f} {ls} h e = subst (LeaseOk c) e (h.lease_ok c)

pub lock-Ok :
    {x n : Bytes} {f : Fsm} {lk : Lock} → Wf x f → get f.locks n ≡ some lk → LockOk n (some lk)
lock-Ok {x} {n} {f} {lk} h e = subst (LockOk n) e (h.lock_ok n)

pub lock_found :
    {x : Bytes} {f : Fsm} {lk : Lock} (n : Bytes)
    → Wf x f
    → get f.locks n ≡ some lk
    → get f.locks lk.name ≡ some lk
lock_found {x} {f} {lk} n h e = subst (λ k. get f.locks k ≡ some lk) (sym (lock-Ok h e).0) e
