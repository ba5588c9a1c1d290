-- ===== src/Client/Session.antt =====
-- The session of a client: the keepalive loop of client/client.go. A stream is a number. The clock, the answers of the
-- server and the end of the contexts come from outside: each tick of the loop brings them.
use zuul.Shared.{
  ℕ, suc, ◌+◌, ◌/◌, ◌%◌, ◌^◌, Bool, true, false, ◌&&◌, ◌||◌, Option, none, some, List, [], ◌∷◌, ◌⊎◌,
  inl, inr, if◌then◌else◌, ◌==◌, ltb, signed_ltb, nat_key,
}

-- `ended` are the streams that have been closed and their contexts cancelled; `streams_made` numbers the next one.
pub record Client (E : Type 0) : Type 0 where
  pub ttl : ℕ
  pub stream : Option ℕ
  pub ended : List ℕ
  pub streams_made : ℕ
  pub deadline_nano : ℕ
  pub lost_err : Option E
  pub done_closed : ℕ

abbrev pub with_ended : List ℕ → Option ℕ → List ℕ
with_ended is none = is
with_ended is (some i) = i ∷ is

-- The number of times that `done` has been closed counts, since a second close panics.
module _ {E : Type 0} where
  unfoldable pub set_stream : Client E → ℕ → Client E
  set_stream c i = record c { stream = some i; ended = with_ended c.ended c.stream }

  unfoldable pub renewed : ℕ → Client E → Client E
  renewed now c = record c { deadline_nano = (now + c.ttl) % 2 ^ 64 }

  abbrev pub lost_first : Client E → E → Option E → Client E
  lost_first c e (some old) = c
  lost_first c e none = record c { lost_err = some e; done_closed = suc c.done_closed }

  unfoldable pub mark_lost : Client E → E → Client E
  mark_lost c e = lost_first c e c.lost_err

-- A third of the time to live, if that is more than nothing.
unfoldable pub pulse_interval : ℕ → ℕ
pulse_interval ttl = if signed_ltb 0 ttl && ltb 0 (ttl / 3) then ttl / 3 else 1000000000

-- codes.Unauthenticated and codes.PermissionDenied
unfoldable pub permanent_reconnect_err : ℕ → Bool
permanent_reconnect_err code = (code == 16) || (code == 7)

-- A tick: how the keepalive went (none if it was answered), the clock after it, what each attempt to reconnect
-- came to (an error, or the clock after the first answer), and whether the context has ended then.
pub record Tick (E : Type 0) : Type 0 where
  pub pulse_err : Option E
  pub now : ℕ
  pub attempts : List (E ⊎ ℕ)
  pub cancelled : Bool

module _ {E : Type 0} (code : E → ℕ) (no_stream : E) where
  -- Each attempt makes a stream, which is ended if the attempt fails.
  abbrev pub dropped : Client E → Client E
  dropped c = record c { ended = c.streams_made ∷ c.ended; streams_made = suc c.streams_made }

  abbrev pub made : Client E → Client E
  made c = record c { streams_made = suc c.streams_made }

  -- The attempts of the backoff, up to where it gives up.
  unfoldable pub retry : Client E → List (E ⊎ ℕ) → Client E × Bool
  unfolding set_stream renewed permanent_reconnect_err
  retry c [] = (c, false)
  retry c (inr now ∷ more) = (renewed now (set_stream (made c) c.streams_made), true)
  retry c (inl e ∷ more) =
      let rest = retry (dropped c) more in
      if permanent_reconnect_err (code e) then (dropped c, false) else rest

  unfoldable pub reestablish : Client E → ℕ → List (E ⊎ ℕ) → Client E × Bool
  unfolding retry
  reestablish c now tries = if signed_ltb now c.deadline_nano then retry c tries else (c, false)

  abbrev pub pulse_of : Option ℕ → Option E → Option E
  pulse_of none r = some no_stream
  pulse_of (some i) r = r

  unfoldable pub pulse : Client E → Option E → Option E
  pulse c r = pulse_of c.stream r

  abbrev pub surfaced : Client E → E → Bool → Client E
  surfaced c e true = c
  surfaced c e false = mark_lost c e

  abbrev pub recovered : (Client E → Client E) → Tick E → E → Client E × Bool → Client E
  recovered next t e (c, true) = next c
  recovered next t e (c, false) = surfaced c e t.cancelled

  abbrev pub beat : (Client E → Client E) → Client E → Tick E → Option E → Client E
  beat next c t none = next (renewed t.now c)
  beat next c t (some e) = recovered next t e (reestablish c t.now t.attempts)

  -- The loop, up to the end of its context.
  unfoldable pub heartbeat : Client E → List (Tick E) → Client E
  unfolding pulse mark_lost
  heartbeat c [] = c
  heartbeat c (t ∷ ts) = beat (λ d. heartbeat d ts) c t (pulse c t.pulse_err)
