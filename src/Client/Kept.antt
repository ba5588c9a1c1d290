-- ===== src/Client/Kept.antt =====
-- The streams of a session, and its end: the keepalive loop of client/client.go.
use zuul.Shared.{
  ℕ, suc, ◌<◌, Bool, true, false, Option, none, some, List, [], ◌∷◌, ◌⊎◌, inl, inr, if◌then◌else◌,
  is_some, nat_key, ◌≡◌, refl, arith, if-elim, signed_ltb,
}
use zuul.GoMap.{contains}
use zuul.Client.Session.{
  Client, Tick, set_stream, renewed, mark_lost, permanent_reconnect_err, retry, reestablish,
  heartbeat, dropped, made, recovered, surfaced, beat, with_ended, lost_first,
}

-- Each stream that was made, but for the one in use, has been ended; and `done` is closed once if the session was
-- lost, and otherwise not.
pub record Kept {E : Type 0} (c : Client E) : Type 0 where
  pub streams : (i : ℕ) → i < c.streams_made → (contains c.ended i ≡ true) ⊎ (c.stream ≡ some i)
  pub once : c.done_closed ≡ (if is_some c.lost_err then 1 else 0)

-- A stream is the new one, was ended before, or is ended now.
ended_or_new :
    (is : List ℕ) (o : Option ℕ) (i n : ℕ)
    → i < suc n
    → (i < n → (contains is i ≡ true) ⊎ (o ≡ some i))
    → (contains (with_ended is o) i ≡ true) ⊎ (some n ≡ some i)
ended_or_new is none i n h k = ground (arith, h, k)
ended_or_new is (some j) i n h k = ground (arith, h, k)

module _ {E : Type 0} where
  renewed-Kept : (now : ℕ) (c : Client E) → Kept c → Kept (renewed now c)
  unfolding renewed
  renewed-Kept now c k = record { streams = k.streams; once = k.once }

  dropped-Kept :
      (code : E → ℕ) (no_stream : E) (c : Client E) → Kept c → Kept (dropped code no_stream c)
  dropped-Kept code no_stream c k = record {
    streams = λ i h. ground (arith, h, k.streams i);
    once = k.once;
  }

  switched-Kept :
      (code : E → ℕ) (no_stream : E) (c : Client E)
      → Kept c
      → Kept (set_stream (made code no_stream c) c.streams_made)
  unfolding set_stream
  switched-Kept code no_stream c k = record {
    streams = λ i h. ended_or_new c.ended c.stream i c.streams_made h (k.streams i);
    once = k.once;
  }

  mark_lost-Kept : (c : Client E) (e : E) → Kept c → Kept (mark_lost c e)
  unfolding mark_lost
  mark_lost-Kept c e k = by_error c.lost_err refl
    where
      by_error : (o : Option E) → c.lost_err ≡ o → Kept (lost_first c e o)
      by_error (some old) q = k
      by_error none q = record { streams = k.streams; once = ground (arith, q, k.once) }

  module _ (code : E → ℕ) (no_stream : E) where
    retry-Kept :
        (tries : List (E ⊎ ℕ)) (c : Client E) → Kept c → Kept (retry code no_stream c tries).0
    unfolding retry
    retry-Kept [] c k = k
    retry-Kept (inr now ∷ more) c k = renewed-Kept now _ (switched-Kept code no_stream c k)
    retry-Kept (inl e ∷ more) c k =
        if-elim {A = Client E × Bool} (λ p. Kept p.0) (permanent_reconnect_err (code e)) _ _
          (λ _. dropped-Kept code no_stream c k)
          (λ _. retry-Kept more (dropped code no_stream c) (dropped-Kept code no_stream c k))

    reestablish-Kept :
        (c : Client E) (now : ℕ) (tries : List (E ⊎ ℕ))
        → Kept c
        → Kept (reestablish code no_stream c now tries).0
    unfolding reestablish
    reestablish-Kept c now tries k =
        if-elim {A = Client E × Bool} (λ p. Kept p.0) (signed_ltb now c.deadline_nano) _ _
          (λ _. retry-Kept tries c k) (λ _. k)

    recovered-Kept :
        (next : Client E → Client E) (t : Tick E) (e : E) (p : Client E × Bool)
        → ((d : Client E) → Kept d → Kept (next d))
        → Kept p.0
        → Kept (recovered code no_stream next t e p)
    recovered-Kept next t e (c, true) h k = h c k
    recovered-Kept next t e (c, false) h k = by_context t.cancelled
      where
        by_context : (b : Bool) → Kept (surfaced code no_stream c e b)
        by_context true = k
        by_context false = mark_lost-Kept c e k

    beat-Kept :
        (next : Client E → Client E) (c : Client E) (t : Tick E) (o : Option E)
        → ((d : Client E) → Kept d → Kept (next d))
        → Kept c
        → Kept (beat code no_stream next c t o)
    beat-Kept next c t none h k = h _ (renewed-Kept t.now c k)
    beat-Kept next c t (some e) h k =
        recovered-Kept next t e _ h (reestablish-Kept c t.now t.attempts k)

    -- Whatever the server answers, and however the clock runs: if each stream made but the one in use has been
    -- ended, and the channel of a lost session closed once if it was lost and otherwise not, so it is
    -- after the keepalive loop.
    pub heartbeat-Kept :
        (ts : List (Tick E)) (c : Client E) → Kept c → Kept (heartbeat code no_stream c ts)
    unfolding heartbeat
    heartbeat-Kept [] c k = k
    heartbeat-Kept (t ∷ ts) c k =
        beat-Kept (λ d. heartbeat code no_stream d ts) c t _ (λ d. heartbeat-Kept ts d) k
