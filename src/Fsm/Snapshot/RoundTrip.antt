-- ===== src/Fsm/Snapshot/RoundTrip.antt =====
-- A shard restored from its snapshot is the shard that was saved.
use mathlib.Core.Option
use zuul.Shared.{
  Bytes, Bool, Option, none, some, [], ◌&&◌, ◌||◌, ◌≡◌, refl, arith, bytes_key, ◌∙◌, subst, sym,
  is_some,
}
use zuul.GoMap.{get, has, get-empty, keys, contains-keys}
use zuul.Fsm.Types.{Fsm, Lease}
use zuul.Fsm.Snapshot.{snapshot, restore, index_locks}
use zuul.Fsm.WellFormed.{Wf, LockOk, lease-client, in_held, in_waiting, holds, waits}
use zuul.Fsm.Snapshot.Copies.{
  bare, loaded_locks, loaded_leases, get-loaded_locks, get-loaded_leases,
}
use zuul.Fsm.Snapshot.Indexes.{Adds, index_locks-Adds, holders, waiters}

-- Two shards that no operation tells apart: the same locks, counters and leases, and the same keys in
-- the leases' indexes. The order of the maps is forgotten.
pub record SameShard (f g : Fsm) : Type 0 where
  pub seq : g.seq ≡ f.seq
  pub revision : g.revision ≡ f.revision
  pub locks : (n : Bytes) → get g.locks n ≡ get f.locks n
  pub leases : (c : Bytes) → Option.map bare (get g.leases c) ≡ Option.map bare (get f.leases c)
  pub held : (c n : Bytes) → in_held g c n ≡ in_held f c n
  pub waiting : (c n : Bytes) → in_waiting g c n ≡ in_waiting f c n

module _ (f : Fsm) (h : Wf [] f) where
  loaded_ok : (n : Bytes) → LockOk n (get (loaded_locks f) n)
  loaded_ok n = subst (LockOk n) (sym (get-loaded_locks f h n)) (h.lock_ok n)

  added :
      Adds
        (loaded_leases f)
        (index_locks (loaded_locks f) (keys (loaded_locks f)) (loaded_leases f))
        (holders (loaded_locks f) (keys (loaded_locks f)))
        (waiters (loaded_locks f) (keys (loaded_locks f)))
  added = index_locks-Adds (loaded_locks f) (keys (loaded_locks f)) (loaded_leases f) loaded_ok

  bare-bare : (o : Option Lease) → Option.map bare (Option.map bare o) ≡ Option.map bare o
  bare-bare none = refl
  bare-bare (some l) = refl

  leases_same :
      (c : Bytes) → Option.map bare (get (loaded_leases f) c) ≡ Option.map bare (get f.leases c)
  leases_same c = rw (get-loaded_leases f h c) (bare-bare (get f.leases c))

  -- A lock's holder and waiters have leases.
  held_at :
      (c n : Bytes) (loaded o : Option Lease) (known : Bool)
      → loaded ≡ Option.map bare o
      → ((ls : Lease) → o ≡ some ls → known ≡ holds o n)
      → (holds loaded n || (is_some loaded && known)) ≡ holds o n
  held_at c n loaded none known e r = rw e refl
  held_at c n loaded (some ls) known e r = rw e (ground (arith, r ls refl, get-empty {V = Unit} n))

  held_known :
      (c n : Bytes) (ls : Lease)
      → get f.leases c ≡ some ls
      → holders (loaded_locks f) (keys (loaded_locks f)) c n ≡ in_held f c n
  held_known c n ls e =
      rw (contains-keys (loaded_locks f) n)
        (rw (get-loaded_locks f h n) (ground (arith, h.held_index c n (lease-client h e).1)))

  held_same :
      (c n : Bytes)
      → (holds (get (loaded_leases f) c) n
          || (has (loaded_leases f) c && holders (loaded_locks f) (keys (loaded_locks f)) c n))
        ≡ in_held f c n
  held_same c n =
      held_at c n (get (loaded_leases f) c) (get f.leases c) _ (get-loaded_leases f h c)
        (λ ls e. held_known c n ls e)

  waiting_at :
      (c n : Bytes) (loaded o : Option Lease) (known : Bool)
      → loaded ≡ Option.map bare o
      → ((ls : Lease) → o ≡ some ls → known ≡ waits o n)
      → (waits loaded n || (is_some loaded && known)) ≡ waits o n
  waiting_at c n loaded none known e r = rw e refl
  waiting_at c n loaded (some ls) known e r =
      rw e (ground (arith, r ls refl, get-empty {V = Unit} n))

  waiting_known :
      (c n : Bytes) (ls : Lease)
      → get f.leases c ≡ some ls
      → waiters (loaded_locks f) (keys (loaded_locks f)) c n ≡ in_waiting f c n
  waiting_known c n ls e =
      rw (contains-keys (loaded_locks f) n)
        (rw (get-loaded_locks f h n) (ground (arith, h.waiting_index c n (lease-client h e).1)))

  waiting_same :
      (c n : Bytes)
      → (waits (get (loaded_leases f) c) n
          || (has (loaded_leases f) c && waiters (loaded_locks f) (keys (loaded_locks f)) c n))
        ≡ in_waiting f c n
  waiting_same c n =
      waiting_at c n (get (loaded_leases f) c) (get f.leases c) _ (get-loaded_leases f h c)
        (λ ls e. waiting_known c n ls e)

  -- A well-formed shard, saved and restored over any other state, is the same shard: its locks with
  -- their queues, its leases, both counters, and the index of every lease.
  pub restore-snapshot : (g : Fsm) → SameShard f (restore g (snapshot f))
  unfolding restore snapshot
  restore-snapshot g = record {
    seq = refl;
    revision = refl;
    locks = get-loaded_locks f h;
    leases = λ c. added.same c ∙ leases_same c;
    held = λ c n. added.held c n ∙ held_same c n;
    waiting = λ c n. added.waiting c n ∙ waiting_same c n;
  }
