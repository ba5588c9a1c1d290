-- ===== src/Node/Limiter.antt =====
-- The rate limits per identity: `identityLimiters` of internal/node/hardening.go and auth.go. A token bucket of
-- the rate library is a parameter: a fresh one, and the charge of one request.
use zuul.Shared.{
  ℕ, ◌≤◌, ◌<◌, Bytes, codes, Bool, Option, none, some, List, [], ◌∷◌, ite, ◌≟◌, if◌then◌else◌, leb,
  length, ◌≡◌, ◌≢◌, arith, bytes_key,
}
use zuul.GoMap.{GoMap, get, put, delete, get-put}

abbrev pub max_identity_limiters : ℕ
max_identity_limiters = 10000

abbrev pub bucket_name : Bytes → Bytes
bucket_name identity = ite (identity ≟ []) (codes "anonymous") identity

module _ {Bucket : Type 0} (fresh : Bucket) (charge : Bucket → Bucket × Bool) where
  abbrev pub bucket_of : Option Bucket → Bucket
  bucket_of none = fresh
  bucket_of (some b) = b

  abbrev pub charged : GoMap Bytes Bucket → Bytes → Bucket × Bool → GoMap Bytes Bucket × Bool
  charged m name (b, ok) = (put m name b, ok)

  -- The map, emptied if it is full.
  unfoldable pub room : GoMap Bytes Bucket → GoMap Bytes Bucket
  room m = if leb max_identity_limiters (length m) then [] else m

  unfoldable pub allow : GoMap Bytes Bucket → Bytes → GoMap Bytes Bucket × Bool
  unfolding room
  allow m identity =
      let name = bucket_name identity in
      charged (room m) name (charge (bucket_of (get (room m) name)))

  unfoldable pub allow_all : GoMap Bytes Bucket → List Bytes → GoMap Bytes Bucket
  unfolding allow
  allow_all m [] = m
  allow_all m (identity ∷ rest) = allow_all (allow m identity).0 rest

  length-delete : (m : GoMap Bytes Bucket) (k : Bytes) → length (delete m k) ≤ length m
  unfolding delete
  length-delete [] k = omega arith
  length-delete ((j, b) ∷ m) k = ground (arith, length-delete m k)

  room-length : (m : GoMap Bytes Bucket) → length (room m) < max_identity_limiters
  unfolding room
  room-length m = ground arith

  allow-length :
      (m : GoMap Bytes Bucket) (identity : Bytes)
      → length (allow m identity).0 ≤ max_identity_limiters
  unfolding allow put
  allow-length m identity =
      ground (arith, room-length m, length-delete (room m) (bucket_name identity))

  -- Whatever calls are made, one after the other, of whatever identities: there are no more than 10000 buckets.
  pub allow_all-bound :
      (m : GoMap Bytes Bucket) (calls : List Bytes)
      → length m ≤ max_identity_limiters
      → length (allow_all m calls) ≤ max_identity_limiters
  unfolding allow_all
  allow_all-bound m [] h = h
  allow_all-bound m (identity ∷ rest) h =
      allow_all-bound (allow m identity).0 rest (allow-length m identity)

  -- A call leaves the bucket of another identity as it was, unless the map was full.
  pub allow-others :
      (m : GoMap Bytes Bucket) (identity other : Bytes)
      → length m < max_identity_limiters
      → bucket_name identity ≢ other
      → get (allow m identity).0 other ≡ get m other
  unfolding allow room
  allow-others m identity other h ne = ground (
    arith,
    h,
    ne,
    get-put m (bucket_name identity) (charge (bucket_of (get m (bucket_name identity)))).0 other,
  )
