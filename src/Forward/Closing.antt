-- ===== src/Forward/Closing.antt =====
-- No connection is leaked: the pool of internal/raft/forward/pool.go through any sequence of requests,
-- evictions and closings.
use zuul.Shared.{
  Bytes, Option, none, some, List, [], ◌∷◌, ◌⊎◌, inl, inr, ◌≟◌, ◌≡◌, refl, ◌∙◌, arith, bytes_key,
  if-elim,
}
use zuul.GoMap.{GoMap, get, get-put, get-delete}
use zuul.Forward.Pool.{Pool, client, cached, dialed, evict, evicted, close, shut_all}

pub data PoolOp : Type 0 where
  request : Bytes → PoolOp
  eviction : Bytes → PoolOp
  closing : PoolOp

module _ {Conn : Type 0} (dial : Bytes → Option Conn) where
  unfoldable pub step : Pool Conn → PoolOp → Pool Conn
  unfolding client evict close
  step p (request addr) = (client dial p addr).0
  step p (eviction addr) = evict p addr
  step p closing = close p

  unfoldable pub run : Pool Conn → List PoolOp → Pool Conn
  unfolding step
  run p [] = p
  run p (o ∷ os) = run (step p o) os

  abbrev pub In : Conn → List Conn → Type 0
  In x [] = ⊥
  In x (y ∷ ys) = (x ≡ y) ⊎ In x ys

  -- The connection to the address is cached, or has been shut.
  abbrev Tracked : Bytes → Conn → Pool Conn → Type 0
  Tracked addr cc p = (get p.conns addr ≡ some cc) ⊎ In cc p.shut

  shut_all-keeps :
      (m : GoMap Bytes Conn) (xs : List Conn) (cc : Conn) → In cc xs → In cc (shut_all m xs)
  unfolding shut_all
  shut_all-keeps [] xs cc i = i
  shut_all-keeps ((a, x) ∷ m) xs cc i = shut_all-keeps m (x ∷ xs) cc (inr i)

  shut_all-In :
      (m : GoMap Bytes Conn) (xs : List Conn) (addr : Bytes) (cc : Conn)
      → get m addr ≡ some cc
      → In cc (shut_all m xs)
  unfolding shut_all get
  shut_all-In [] xs addr cc e = ground (arith, e)
  shut_all-In ((a, x) ∷ m) xs addr cc e = elim (a ≟ addr) [
    | yes p ↦ shut_all-keeps m (x ∷ xs) cc (inl (ground (arith, p, e)))
    | no n ↦ shut_all-In m (x ∷ xs) addr cc (ground (arith, n, e))
  ]

  dialed-Tracked :
      (p : Pool Conn) (a addr : Bytes) (conn : Conn) (fresh : Option Conn)
      → get p.conns a ≡ none
      → Tracked addr conn p
      → Tracked addr conn (dialed p a fresh).0
  dialed-Tracked p a addr conn none e t = t
  dialed-Tracked p a addr conn (some y) e (inr i) = inr i
  dialed-Tracked p a addr conn (some y) e (inl k) =
      inl (ground (arith, k, e, get-put p.conns a y addr))

  cached-Tracked :
      (p : Pool Conn) (a addr : Bytes) (conn : Conn) (o : Option Conn)
      → get p.conns a ≡ o
      → Tracked addr conn p
      → Tracked addr conn (cached p a (dial a) o).0
  cached-Tracked p a addr conn none e t = dialed-Tracked p a addr conn (dial a) e t
  cached-Tracked p a addr conn (some x) e t = t

  client-Tracked :
      (p : Pool Conn) (a addr : Bytes) (conn : Conn)
      → Tracked addr conn p
      → Tracked addr conn (client dial p a).0
  unfolding client
  client-Tracked p a addr conn t =
      if-elim (λ (r : Pool Conn × Option Conn). Tracked addr conn r.0) p.closed _ _ (λ _. t)
        (λ _. cached-Tracked p a addr conn (get p.conns a) refl t)

  evicted-Tracked :
      (p : Pool Conn) (a addr : Bytes) (conn : Conn) (o : Option Conn)
      → get p.conns a ≡ o
      → Tracked addr conn p
      → Tracked addr conn (evicted p a o)
  evicted-Tracked p a addr conn none e (inr i) = inr i
  evicted-Tracked p a addr conn (some x) e (inr i) = inr (inr i)
  evicted-Tracked p a addr conn none e (inl k) =
      inl (ground (arith, k, e, get-delete p.conns a addr))
  evicted-Tracked p a addr conn (some x) e (inl k) = elim (a ≟ addr) [
    | yes q ↦ inr (inl (ground (arith, q, k, e)))
    | no n ↦ inl (ground (arith, n, k, e, get-delete p.conns a addr))
  ]

  evict-Tracked :
      (p : Pool Conn) (a addr : Bytes) (conn : Conn)
      → Tracked addr conn p
      → Tracked addr conn (evict p a)
  unfolding evict
  evict-Tracked p a addr conn t = evicted-Tracked p a addr conn (get p.conns a) refl t

  close-Tracked :
      (p : Pool Conn) (addr : Bytes) (conn : Conn) → Tracked addr conn p → In conn (close p).shut
  unfolding close
  close-Tracked p addr conn (inl e) = shut_all-In p.conns p.shut addr conn e
  close-Tracked p addr conn (inr i) = shut_all-keeps p.conns p.shut conn i

  run-Tracked :
      (p : Pool Conn) (ops : List PoolOp) (addr : Bytes) (conn : Conn)
      → Tracked addr conn p
      → Tracked addr conn (run p ops)
  unfolding run step
  run-Tracked p [] addr conn t = t
  run-Tracked p (request a ∷ ops) addr conn t =
      run-Tracked (client dial p a).0 ops addr conn (client-Tracked p a addr conn t)
  run-Tracked p (eviction a ∷ ops) addr conn t =
      run-Tracked (evict p a) ops addr conn (evict-Tracked p a addr conn t)
  run-Tracked p (closing ∷ ops) addr conn t =
      run-Tracked (close p) ops addr conn (inr (close-Tracked p addr conn t))

  client-cached :
      (p : Pool Conn) (addr : Bytes) (conn : Conn)
      → (client dial p addr).1 ≡ some conn
      → get (client dial p addr).0.conns addr ≡ some conn
  unfolding client
  client-cached p addr conn e =
      if-elim Cached p.closed _ _ (λ _ k. ground (arith, k))
        (λ _. found (get p.conns addr) refl (dial addr)) e
    where
      Cached : Pool Conn × Option Conn → Type 0
      Cached r = r.1 ≡ some conn → get r.0.conns addr ≡ some conn

      found :
          (o : Option Conn)
          → get p.conns addr ≡ o
          → (fresh : Option Conn) → Cached (cached p addr fresh o)
      found (some x) q fresh k = q ∙ k
      found none q none k = ground (arith, k)
      found none q (some y) k = ground (arith, k, get-put p.conns addr y addr)

  -- A connection that the pool hands out has been shut once the pool is closed, whatever is requested,
  -- evicted or closed in between. The closed pool has no connection and hands out none.
  pub client-close :
      (p : Pool Conn) (addr : Bytes) (conn : Conn) (ops : List PoolOp)
      → (client dial p addr).1 ≡ some conn
      → let q = close (run (client dial p addr).0 ops) in
        In conn q.shut × (q.conns ≡ []) × ((a : Bytes) → client dial q a ≡ (q, none))
  unfolding close client
  client-close p addr conn ops e = (
    close-Tracked (run (client dial p addr).0 ops) addr conn
        (run-Tracked (client dial p addr).0 ops addr conn (inl (client-cached p addr conn e))),
    refl,
    (λ a. refl),
  )
