-- ===== src/Session.antt =====
-- The session manager: internal/lock/session/session.go. The proposer (the forward dispatcher) and the
-- generated marshallers are parameters, a reading of the clock is an argument. A loop over a map goes
-- in the map's order, which is any order: it stands for any schedule of the group's goroutines.
pub mod Lapse
pub mod Committed
pub mod Closed
use zuul.Shared.{
  ℕ, Bytes, Option, none, some, List, [], ◌∷◌, ite, bytes_key, nat_key, add64, mul64, ◌⊎◌, inl, inr,
}
use zuul.GoMap.{GoMap, get, put, delete, keys}
use zuul.Fsm.Types.{Command, CommandResult, Outcome, Outcome-discrete, not_found}
use zuul.Cmd.{grant_lease, keep_alive, revoke}
use zuul.Consensus.{Codec}

-- The shards in which the client has a lease.
pub record Session : Type 0 where
  pub ttl_ms : ℕ
  pub shards : GoMap ℕ (Unit {0})

abbrev pub Manager : Type 0
Manager = GoMap Bytes Session

pub data SessionError : Type 0 where
  no_session marshal_error backend_error : SessionError

pub data Proposed : Type 0 where
  got : CommandResult → Proposed
  refused : SessionError → Proposed

abbrev opened : ℕ → Option Session → Session
opened ttl_ms none = record { ttl_ms = ttl_ms; shards = [] }
opened ttl_ms (some s) = record s { ttl_ms = ttl_ms }

unfoldable pub open_session : Manager → Bytes → ℕ → Manager
open_session m client ttl_ms = put m client (opened ttl_ms (get m client))

abbrev pub joined : ℕ → Session → Session
joined shard s = record s { shards = put s.shards shard tt }

abbrev attached : Manager → Bytes → ℕ → Option Session → Manager × Option SessionError
attached m client shard none = (m, some no_session)
attached m client shard (some s) = (put m client (joined shard s), none)

unfoldable pub attach : Manager → Bytes → ℕ → Manager × Option SessionError
attach m client shard = attached m client shard (get m client)

-- A lease that has lapsed is dropped from the session.
unfoldable pub lapsed : ℕ → Proposed → Session → Session
lapsed shard (refused x) s = s
lapsed shard (got r) s =
    ite (Outcome-discrete r.outcome not_found) (record s { shards = delete s.shards shard }) s

abbrev pub first_error : Proposed → Option SessionError → Option SessionError
first_error (refused x) e = some x
first_error (got r) e = e

module _ {World C R : Type 0} (proposer : World → ℕ → C → World × Option R)
    (commands : Codec Command C) (results : Codec CommandResult R) where
  abbrev pub decoded : Option CommandResult → Proposed
  decoded none = refused marshal_error
  decoded (some r) = got r

  abbrev pub replied : World × Option R → World × Proposed
  replied (w, none) = (w, refused backend_error)
  replied (w, some b) = (w, decoded (results.unmarshal b))

  abbrev pub sent : World → ℕ → Option C → World × Proposed
  sent w shard none = (w, refused marshal_error)
  sent w shard (some b) = replied (proposer w shard b)

  unfoldable pub propose : World → ℕ → Command → World × Proposed
  propose w shard c = sent w shard (commands.marshal c)

  abbrev pub granted_lease :
      Manager → Bytes → ℕ → Session → World × Proposed → World × Manager × Option SessionError
  granted_lease m client shard s (w, refused x) = (w, m, some x)
  granted_lease m client shard s (w, got r) = (w, put m client (joined shard s), none)

  abbrev pub ensure_among :
      World
      → ℕ
      → Manager
      → Bytes
      → ℕ
      → Session
      → Option (Unit {0})
      → World × Manager × Option SessionError
  ensure_among w now m client shard s (some _) = (w, m, none)
  ensure_among w now m client shard s none =
      granted_lease m client shard s (propose w shard (grant_lease client s.ttl_ms now))

  abbrev pub ensure_found :
      World → ℕ → Manager → Bytes → ℕ → Option Session → World × Manager × Option SessionError
  ensure_found w now m client shard none = (w, m, some no_session)
  ensure_found w now m client shard (some s) =
      ensure_among w now m client shard s (get s.shards shard)

  unfoldable pub ensure_lease :
      World → ℕ → Manager → Bytes → ℕ → World × Manager × Option SessionError
  unfolding propose
  ensure_lease w now m client shard = ensure_found w now m client shard (get m client)

  -- The goroutines of `KeepAlive`, one for each shard; the error is the group's.
  unfoldable pub renew :
      World → ℕ → Bytes → Session → List ℕ → World × Session × Option SessionError
  unfolding propose lapsed
  renew w now client s [] = (w, s, none)
  renew w now client s (shard ∷ rest) =
      let (w1, p) = propose w shard (keep_alive client now) in
      let (w2, s2, e) = renew w1 now client (lapsed shard p s) rest in (w2, s2, first_error p e)

  abbrev pub kept :
      ℕ
      → Manager
      → Bytes
      → ℕ
      → World × Session × Option SessionError
      → World × Manager × (SessionError ⊎ ℕ)
  kept now m client ttl_ms (w, s, some e) = (w, put m client s, inl e)
  kept now m client ttl_ms (w, s, none) =
      (w, put m client s, inr (add64 now (mul64 ttl_ms 1000000)))

  abbrev pub keep_found :
      World → ℕ → Manager → Bytes → Option Session → World × Manager × (SessionError ⊎ ℕ)
  keep_found w now m client none = (w, m, inl no_session)
  keep_found w now m client (some s) =
      kept now m client s.ttl_ms (renew w now client s (keys s.shards))

  -- `KeepAlive`: an error, or the new deadline. The round is one step here: the session's mutex is not held while
  -- the source proposes, so other operations on the session may come between there.
  unfoldable pub keep_session : World → ℕ → Manager → Bytes → World × Manager × (SessionError ⊎ ℕ)
  unfolding renew
  keep_session w now m client = keep_found w now m client (get m client)

  -- The goroutines of `Close`, whose failures are ignored.
  unfoldable pub revoke_all : World → Bytes → List ℕ → World
  unfolding propose
  revoke_all w client [] = w
  revoke_all w client (shard ∷ rest) = revoke_all (propose w shard (revoke client)).0 client rest

  abbrev pub close_found : World → Bytes → Option Session → World
  close_found w client none = w
  close_found w client (some s) = revoke_all w client (keys s.shards)

  unfoldable pub close_session : World → Manager → Bytes → World × Manager
  unfolding revoke_all
  close_session w m client = (close_found w client (get m client), delete m client)
