-- ===== src/Server/Limits.antt =====
-- The bounds on a client's TTL and on a bounded wait: `clampTTL` and `boundedWait` of
-- internal/server/server.go.
use zuul.Shared.{
  ℕ, ◌+◌, ◌-◌, ◌*◌, ◌/◌, ◌%◌, ◌^◌, ◌≤◌, ◌<◌, Option, none, some, if◌then◌else◌, not, ltb,
  signed_ltb, mul64, add64, u64_mod, ◌≡◌, arith,
}

-- The patterns of the int64 that are not negative.
abbrev pub top : ℕ
top = 2 ^ 63

abbrev pub millisecond : ℕ
millisecond = 1000000

-- Minus an int64.
abbrev pub negated : ℕ → ℕ
negated d = (u64_mod - d) % u64_mod

-- Duration.Milliseconds, whose division rounds towards zero.
unfoldable pub milliseconds : ℕ → ℕ
milliseconds d = if ltb d top then d / millisecond else negated ((u64_mod - d) / millisecond)

unfoldable pub clamp_duration : (default least most req_ms : ℕ) → ℕ
clamp_duration default least most req_ms =
    let ttl = mul64 req_ms millisecond in
    if not (signed_ltb 0 req_ms)
    then default
    else if signed_ltb ttl least
    then least
    else if signed_ltb most ttl
    then most
    else ttl

unfoldable pub clamp_ttl : (default least most req_ms : ℕ) → ℕ
unfolding clamp_duration milliseconds
clamp_ttl default least most req_ms = milliseconds (clamp_duration default least most req_ms)

module _ (default least most : ℕ) (l : least ≤ default) (m : default ≤ most) (t : most < top) where
  clamp_duration-bounds :
      (req_ms : ℕ)
      → (least ≤ clamp_duration default least most req_ms)
        × (clamp_duration default least most req_ms ≤ most)
  unfolding clamp_duration
  clamp_duration-bounds req_ms = ground arith

  milliseconds-bounds :
      (d : ℕ)
      → (least ≤ d) × (d ≤ most)
      → (least / millisecond ≤ milliseconds d) × (milliseconds d ≤ most / millisecond)
  unfolding milliseconds
  milliseconds-bounds d (a, b) = ground arith

  -- With a default between the least and the most, which is an int64, a positive TTL in bounds is granted
  -- as it was asked for.
  pub clamp_ttl-within :
      (req_ms : ℕ)
      → 0 < req_ms
      → least ≤ req_ms * millisecond
      → req_ms * millisecond ≤ most
      → clamp_ttl default least most req_ms ≡ req_ms
  unfolding clamp_ttl clamp_duration milliseconds
  clamp_ttl-within req_ms p a b = ground arith

  -- With a default between the least and the most, which is an int64, whatever the client asks for, also a TTL whose nanoseconds overflow an int64, what it gets lies
  -- between the least and the most, in milliseconds.
  pub clamp_ttl-bounds :
      (req_ms : ℕ)
      → (least / millisecond ≤ clamp_ttl default least most req_ms)
        × (clamp_ttl default least most req_ms ≤ most / millisecond)
  unfolding clamp_ttl
  clamp_ttl-bounds req_ms =
      milliseconds-bounds (clamp_duration default least most req_ms) (clamp_duration-bounds req_ms)

abbrev pub bounded_wait_grace : ℕ
bounded_wait_grace = 500000000

-- An int64 divided by 2, towards zero.
abbrev pub half : ℕ → ℕ
half d = if ltb d top then d / 2 else negated ((u64_mod - d) / 2)

-- The grace kept at the tail of a wait until `d`.
unfoldable pub grace_of : (d now : ℕ) → ℕ
grace_of d now =
    let grace = half (add64 d (negated now)) in
    if signed_ltb bounded_wait_grace grace
    then bounded_wait_grace
    else if signed_ltb grace 0
    then 0
    else grace

-- The deadline of the internal wait; none where the wait is unbounded.
unfoldable pub bounded_wait : (d now : ℕ) → Option ℕ
unfolding grace_of
bounded_wait d now =
    if not (signed_ltb 0 d) then none else some (add64 d (negated (grace_of d now)))

-- A wait until a later instant that is an int64 ends no later than that instant, at most the grace before it, and leaves
-- at least half of the time to wait.
pub bounded_wait_lem :
    (d now : ℕ)
    → now < d
    → d < top
    → (e : ℕ) × (bounded_wait d now ≡ some e)
      × (e ≤ d)
      × (d ≤ e + bounded_wait_grace)
      × (d + now ≤ 2 * e)
unfolding bounded_wait grace_of
bounded_wait_lem d now a b =
    (add64 d (negated (grace_of d now)), ground arith, ground arith, ground arith, ground arith)
