-- ===== src/Client/Released.antt =====
-- A lock taken and given back: client/mutex.go over the handlers of internal/server/server.go and the shards.
use zuul.Shared.{
  ℕ, Bytes, Bool, true, false, Option, none, some, [], ◌⊎◌, inl, inr, ◌≡◌, refl, ap, ◌∙◌, sym,
  subst, arith, ◌≟◌, bytes_key, nat_key, Option-cases, if_pos, if◌then◌else◌,
}
use zuul.GoMap.{get}
use zuul.Auth.Authz.{Authorizer}
use zuul.Fsm.Types.{Fsm, Lock, Command, CommandResult, release_lock, released}
use zuul.Fsm.Apply.{apply}
use zuul.Fsm.Queries.{Status}
use zuul.Fsm.WellFormed.{Wf}
use zuul.Fsm.Handover.{owner_of, handed, release-handed}
use zuul.Consensus.{Codec}
use zuul.Consensus.Log.{Lossless}
use zuul.Session.{Manager}
use zuul.Session.Lapse.{at}
use zuul.Session.Committed.{propose-ok}
use zuul.Server.{
  ServerError, backend, Response, Reply, answer, at_revision, status_is, error, admit_client,
  unlock_reply,
}
use zuul.Server.Waiting
use zuul.Server.Granted.{Served, Holds, proposes, ensures, try_lock-Holds}
use zuul.Client.Mutex.{Mutex, new_mutex, not_held, try_lock, unlock, tried, unlocked}

-- What a call of TryLock or of Unlock comes back with.
abbrev pub as_response : Served × Reply → Served × (ServerError ⊎ Response)
as_response (s, answer r) = (s, inr r)
as_response (s, error e) = (s, inl e)
as_response (s, other) = (s, inl backend)

abbrev pub as_revision : Served × Reply → Served × (ServerError ⊎ ℕ)
as_revision (s, at_revision r) = (s, inr r)
as_revision (s, error e) = (s, inl e)
as_revision (s, other) = (s, inl backend)

abbrev pub never : ServerError → Bool
never e = false

module _ {C R : Type 0} (commands : Codec Command C) (results : Codec CommandResult R) (now : ℕ)
    (cb : Command → C) (rb : CommandResult → R) (lc : Lossless commands cb)
    (lr : Lossless results rb) (shard : Bytes → ℕ) (policy : Authorizer) (identity : Bytes)
    (read : Served → ℕ → Bytes → Served × Option Status) (live : Served → Bool) where
  abbrev pub try_call : Served → Bytes → Bytes → Served × (ServerError ⊎ Response)
  try_call s name client = as_response (
      Waiting.try_lock shard policy identity (ensures commands results now)
        (proposes commands results now) read live s name client)

  abbrev pub unlock_call : Served → Bytes → Bytes → ℕ → Served × (ServerError ⊎ ℕ)
  unlock_call s name client token = as_revision (
      Waiting.unlock shard policy identity (ensures commands results now)
        (proposes commands results now) read live s name client token)

  -- The key, its owner's lock `lk`, before and after the owner gives it back.
  abbrev pub GivenBack : Bytes → Bytes → Mutex → Served → Lock → Type 0
  GivenBack name client m s lk =
      let out = unlock client never unlock_call s m in
      (get (s.0 (shard name)).locks name ≡ some lk)
      × (lk.holder ≡ client)
      × (lk.token ≡ m.token)
      × (out.2 ≡ none)
      × (out.1.held ≡ false)
      × (get (out.0.0 (shard name)).locks name ≡ handed lk lk.queue (s.0 (shard name)).seq)

  answered-admitted :
      (s : Served) (name client : Bytes) (r : Response)
      → (try_call s name client).1 ≡ inr r
      → admit_client policy identity name client ≡ none
  unfolding Waiting.try_lock
  answered-admitted s name client r e =
      elim (Option-cases (admit_client policy identity name client)) [
        | inl q ↦ q
        | inr (x, q) ↦ ground (arith, q, e)
      ]

  released_result-revision :
      (s : Served) (r : CommandResult)
      → r.outcome ≡ released
      → (as_revision (s, unlock_reply r r.outcome)) ≡ (s, inr r.revision)
  unfolding unlock_reply
  released_result-revision s r e = rw e refl

  unlock_call-released :
      (w : ℕ → Fsm) (m : Manager) (name : Bytes) (lk : Lock)
      → Wf [] (w (shard name))
      → admit_client policy identity name lk.holder ≡ none
      → get (w (shard name)).locks name ≡ some lk
      → let new = (apply (w (shard name)) (some (release_lock name lk.holder lk.token))).0 in
        (r : ℕ) × (unlock_call (w, m) name lk.holder lk.token ≡ ((at w (shard name) new, m), inr r))
  unfolding Waiting.unlock
  unlock_call-released w m name lk h a e =
      let k = shard name in
      let c = release_lock name lk.holder lk.token in
      let s = at w k (apply (w k) (some c)).0 in
      let (r, accepted, o) = (release-handed (w k) name lk h e).1 in
      (
        r.revision,
        rw a (
            rw (propose-ok commands results cb rb lc lr w k c r accepted)
              (released_result-revision (s, m) r o)),
      )

  unlock-GivenBack :
      (w : ℕ → Fsm) (m : Manager) (x : Mutex) (lk : Lock)
      → Wf [] (w (shard x.name))
      → admit_client policy identity x.name lk.holder ≡ none
      → get (w (shard x.name)).locks x.name ≡ some lk
      → lk.token ≡ x.token
      → x.held ≡ true
      → GivenBack x.name lk.holder x (w, m) lk
  unfolding unlock
  unlock-GivenBack w m x lk h a e t d =
      let k = shard x.name in
      let new = (apply (w k) (some (release_lock x.name lk.holder lk.token))).0 in
      let here : at w k new k ≡ new = if_pos (nat_key.dec k k) refl _ _ in
      let (r, call) = unlock_call-released w m x.name lk h a e in
      let q : unlock lk.holder never unlock_call (w, m) x
          ≡ ((at w k new, m), record x { held = false }, none) =
        let called = unlocked lk.holder never x (unlock_call (w, m) x.name lk.holder x.token) in
        ap (λ b. if b then called else ((w, m), x, some not_held)) d
        ∙ ap (λ n. unlocked lk.holder never x (unlock_call (w, m) x.name lk.holder n)) (sym t)
        ∙ ap (unlocked lk.holder never x) call in
      (
        e,
        refl,
        t,
        ap (λ o. o.2) q,
        ap (λ o. o.1.held) q,
        ap (λ o. get (o.0.0 k).locks x.name) q
            ∙ ap (λ f. get f.locks x.name) here
            ∙ (release-handed (w k) x.name lk h e).0 x.name
            ∙ if_pos (x.name ≟ x.name) refl _ _,
      )

  owned :
      (o : Option Lock) (client : Bytes) (token : ℕ)
      → owner_of o ≡ some (client, token)
      → (lk : Lock) × (o ≡ some lk) × (lk.holder ≡ client) × (lk.token ≡ token)
  owned none client token e = ground (arith, e)
  owned (some lk) client token e = (lk, refl, ground (arith, e), ground (arith, e))

  taken-GivenBack :
      (s : Served) (x : Mutex) (client : Bytes)
      → Wf [] (s.0 (shard x.name))
      → owner_of (get (s.0 (shard x.name)).locks x.name) ≡ some (client, x.token)
      → admit_client policy identity x.name client ≡ none
      → x.held ≡ true
      → (lk : Lock) × GivenBack x.name client x s lk
  taken-GivenBack s x client h o a d =
      let (lk, e, c, t) = owned (get (s.0 (shard x.name)).locks x.name) client x.token o in
      (
        lk,
        subst (λ z. GivenBack x.name z x s lk) c
            (unlock-GivenBack s.0 s.1 x lk h
              (subst (λ z. admit_client policy identity x.name z ≡ none) (sym c) a) e t d),
      )

  -- Over a dispatcher that reaches every shard, with lossless marshallers and every shard well formed: if the
  -- client library's TryLock of a new mutex reports success, the client holds the key in the shard that
  -- the key is routed to, under the mutex's token; and an Unlock of that mutex right after it
  -- succeeds, leaves the mutex not held, and hands the key to the head of its queue.
  pub unlock-try_lock :
      (w : ℕ → Fsm) (m : Manager) (name client : Bytes)
      → ((k : ℕ) → Wf [] (w k))
      → let out = try_lock client never try_call (w, m) (new_mutex name) in
        out.2 ≡ inr true → (lk : Lock) × GivenBack name client out.1 out.0 lk
  unfolding try_lock new_mutex
  unlock-try_lock w m name client h =
      given
        (Waiting.try_lock shard policy identity (ensures commands results now)
          (proposes commands results now) read live (w, m) name client)
        (try_lock-Holds commands results now cb rb lc lr shard policy identity read live name client
          w m h)
        (λ r. answered-admitted (w, m) name client r)
    where
      given :
          (p : Served × Reply)
          → ((k : ℕ) → Wf [] (p.0.0 k)) × Holds shard name client p
          → ((r : Response)
              → (as_response p).1 ≡ inr r
              → admit_client policy identity name client ≡ none)
          → (tried client never (new_mutex name) (as_response p)).2 ≡ inr true
          → let out = tried client never (new_mutex name) (as_response p) in
            (lk : Lock) × GivenBack name client out.1 out.0 lk
      given (s, answer r) h a e =
          let q : r.acquired ≡ true = ground (arith, e) in
          rw q (
            taken-GivenBack s (record { name = name; token = r.fencing_token; held = true }) client
              (h.0 (shard name)) (h.1 q) (a r refl) refl)
      given (s, at_revision r) h a e = ground (arith, e)
      given (s, status_is st) h a e = ground (arith, e)
      given (s, error x) h a e = ground (arith, e)
