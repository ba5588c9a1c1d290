-- ===== src/Server/Stream.antt =====
-- The session stream: `KeepAlive` and `recoverSession` of internal/server/server.go, over the session manager.
-- The id that a stream is given where the client names none, a reading of the clock, and whether a response
-- could be sent, are arguments; the goroutines of the recovery run in the order of the list.
use zuul.Shared.{
  ℕ, Bytes, Bool, true, false, Option, none, some, List, [], ◌∷◌, ite, ◌≟◌, if◌then◌else◌, ◌⊎◌, inl,
  inr, add64, mul64, bytes_key, length, All, suc, if-elim, ◌≡◌, refl, ap, sym, subst, arith,
}
use zuul.GoMap.{get, delete, get-delete}
use zuul.Fsm.Types.{Command, CommandResult}
use zuul.Consensus.{Codec}
use zuul.Session.{Manager, SessionError, open_session, attach, keep_session, close_session}

pub record Request : Type 0 where
  pub client_id : Bytes
  pub ttl_ms : ℕ
  pub now : ℕ
  pub delivered : Bool

pub record Response : Type 0 where
  pub client_id : Bytes
  pub ttl_ms : ℕ
  pub deadline : ℕ

-- A stream that the client has closed, and one that has failed: on receiving, on a renewal, on sending.
pub data Ending : Type 0 where
  closed failed : Ending

module _ {World C R : Type 0} (proposer : World → ℕ → C → World × Option R)
    (commands : Codec Command C) (results : Codec CommandResult R)
    (exists_lease : World → ℕ → Bytes → Option Bool) (shards : List ℕ) (fresh : Bytes)
    (clamp : ℕ → ℕ) where
  -- A shard that cannot be read is skipped, and so is one that has no lease of the client.
  abbrev pub reattached : Manager → Bytes → ℕ → Option Bool → Manager
  reattached m client shard (some true) = (attach m client shard).0
  reattached m client shard other = m

  unfoldable pub recover_session : World → Manager → Bytes → List ℕ → Manager
  recover_session w m client [] = m
  recover_session w m client (s ∷ ss) =
      recover_session w (reattached m client s (exists_lease w s client)) client ss

  -- The stream's client and TTL, once it has them.
  abbrev pub Known : Type 0
  Known = Option (Bytes × ℕ)

  abbrev pub Turn : Type 0
  Turn = World × Manager × (Bytes × ℕ) × (SessionError ⊎ ℕ)

  abbrev pub opened : World → Manager → Bytes → Bool → Request → Turn
  opened w m client reconnect r =
      let ttl = clamp r.ttl_ms in
      let m2 = open_session m client ttl in
      (
        w,
        if reconnect then recover_session w m2 client shards else m2,
        (client, ttl),
        inr (add64 r.now (mul64 ttl 1000000)),
      )

  abbrev pub renewed : Bytes × ℕ → World × Manager × (SessionError ⊎ ℕ) → Turn
  renewed known (w, m, d) = (w, m, known, d)

  -- What a request does: the first opens the session, a later one renews it.
  unfoldable pub turn : World → Manager → Known → Request → Turn
  unfolding recover_session
  turn w m none r =
      ite (r.client_id ≟ []) (opened w m fresh false r) (opened w m r.client_id true r)
  turn w m (some known) r = renewed known (keep_session proposer commands results w r.now m known.0)

  abbrev pub Outcome : Type 0
  Outcome = World × Manager × Known × List Response × Ending

  abbrev pub responded : Response → Outcome → Outcome
  responded x (w, m, k, xs, e) = (w, m, k, x ∷ xs, e)

  abbrev pub after_turn : (World → Manager → Known → Outcome) → Request → Turn → Outcome
  after_turn rest r (w, m, known, inl x) = (w, m, some known, [], failed)
  after_turn rest r (w, m, known, inr d) =
      if r.delivered
      then responded (record { client_id = known.0; ttl_ms = known.1; deadline = d })
          (rest w m (some known))
      else (w, m, some known, [], failed)

  -- The loop; the requests are followed by the client's closing or by a failure to receive.
  unfoldable pub serve : World → Manager → Known → List Request → Ending → Outcome
  unfolding turn
  serve w m k [] e = (w, m, k, [], e)
  serve w m k (r ∷ rs) e = after_turn (λ u n known. serve u n known rs e) r (turn w m k r)

  abbrev pub finished : Outcome → Outcome
  finished (w, m, k, xs, failed) = (w, m, k, xs, failed)
  finished (w, m, none, xs, closed) = (w, m, none, xs, closed)
  finished (w, m, some known, xs, closed) =
      let (u, n) = close_session proposer commands results w m known.0 in
      (u, n, some known, xs, closed)

  -- `KeepAlive`
  unfoldable pub keep_alive : World → Manager → List Request → Ending → Outcome
  unfolding serve
  keep_alive w m rs e = finished (serve w m none rs e)

  -- What a stream that was closed has answered, of which the client is `known`.
  abbrev pub Answered : List Request → Bytes × ℕ → List Response → Type 0
  Answered rs known xs =
      (length xs ≡ length rs)
      × All (λ (x : Response). (x.client_id ≡ known.0) × (x.ttl_ms ≡ known.1)) xs

  -- The stream was not closed, or its client is `known` and the responses are the client's.
  abbrev Kept : List Request → Bytes × ℕ → Outcome → Type 0
  Kept rs known out = out.4 ≡ closed → (out.2 ≡ some known) × Answered rs known out.3

  after_turn-Kept :
      (rest : World → Manager → Known → Outcome) (r : Request) (rs : List Request) (w : World)
      (m : Manager) (known : Bytes × ℕ) (d : SessionError ⊎ ℕ)
      → Kept rs known (rest w m (some known))
      → Kept (r ∷ rs) known (after_turn rest r (w, m, known, d))
  after_turn-Kept rest r rs w m known (inl x) h = λ e. ground (arith, e)
  after_turn-Kept rest r rs w m known (inr d) h =
      if-elim (Kept (r ∷ rs) known) r.delivered _ _
        (λ _ e. ((h e).0, (ap suc (h e).1.0, ((refl, refl), (h e).1.1)))) (λ _ e. ground (arith, e))

  serve-Kept :
      (rs : List Request) (w : World) (m : Manager) (known : Bytes × ℕ)
      → Kept rs known (serve w m (some known) rs closed)
  unfolding serve turn
  serve-Kept [] w m known = λ e. (refl, (refl, tt))
  serve-Kept (r ∷ rs) w m known =
      let (u, n, d) = keep_session proposer commands results w r.now m known.0 in
      after_turn-Kept (λ v k q. serve v k q rs closed) r rs u n known d (serve-Kept rs u n known)

  -- The client of a stream, whose first request is `r`.
  abbrev pub chosen : Request → Bytes × ℕ
  chosen r = (ite (r.client_id ≟ []) fresh r.client_id, clamp r.ttl_ms)

  first-Kept :
      (r : Request) (rs : List Request) (w : World) (m : Manager)
      → Kept (r ∷ rs) (chosen r) (serve w m none (r ∷ rs) closed)
  unfolding serve turn
  first-Kept r rs w m = opened_by (r.client_id ≟ [])
    where
      opened_by :
          (d : Dec (r.client_id ≡ []))
          → Kept
              (r ∷ rs)
              (ite d fresh r.client_id, clamp r.ttl_ms)
              (after_turn
                (λ v k q. serve v k q rs closed)
                r
                (ite d (opened w m fresh false r) (opened w m r.client_id true r)))
      opened_by (yes p) =
          after_turn-Kept (λ v k q. serve v k q rs closed) r rs w _ (fresh, clamp r.ttl_ms) (inr _)
            (serve-Kept rs w _ (fresh, clamp r.ttl_ms))
      opened_by (no p) =
          after_turn-Kept (λ v k q. serve v k q rs closed) r rs w _ (r.client_id, clamp r.ttl_ms)
            (inr _) (serve-Kept rs w _ (r.client_id, clamp r.ttl_ms))

  finished-closed :
      (known : Bytes × ℕ) (rs : List Request) (out : Outcome)
      → Kept rs known out
      → (finished out).4 ≡ closed
      → Answered rs known (finished out).3 × (get (finished out).1 known.0 ≡ none)
  unfolding close_session
  finished-closed known rs (w, m, k, xs, failed) h e = ground (arith, e)
  finished-closed known rs (w, m, none, xs, closed) h e = ground (arith, (h refl).0)
  finished-closed known rs (w, m, some q, xs, closed) h e = (
    (h refl).1,
    subst (λ (o : Known). get (delete m (from_known o)) known.0 ≡ none) (sym (h refl).0)
        (ground (arith, get-delete m known.0 known.0)),
  )
    where
      from_known : Known → Bytes
      from_known none = []
      from_known (some i) = i.0

  -- A stream of one request or more that ends without a failure, by the client's closing it, has answered every
  -- request, in the name of one client and with one TTL: those of the first request, the TTL
  -- clamped, and an id that the server gives where the request has none. The node then has no
  -- session for that client.
  pub keep_alive-closed :
      (r : Request) (rs : List Request) (w : World) (m : Manager)
      → let out = keep_alive w m (r ∷ rs) closed in
        out.4 ≡ closed → Answered (r ∷ rs) (chosen r) out.3 × (get out.1 (chosen r).0 ≡ none)
  unfolding keep_alive
  keep_alive-closed r rs w m e =
      finished-closed (chosen r) (r ∷ rs) (serve w m none (r ∷ rs) closed) (first-Kept r rs w m) e
