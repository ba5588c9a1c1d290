-- ===== src/Server/Granted.antt =====
-- TryLock from the request to the state machines: the handler of internal/server/server.go over the session
-- manager of internal/lock/session/session.go, a dispatcher that reaches every shard, and the shards.
use zuul.Shared.{
  ℕ, Bytes, Bool, true, Option, none, some, [], ◌≡◌, ◌≢◌, refl, ap, ◌∙◌, arith, bytes_key, nat_key,
  inc64, Option-cases, inl, inr, if_pos,
}
use zuul.GoMap.{get}
use zuul.Auth.Authz.{Authorizer}
use zuul.Fsm.Types.{
  Fsm, Command, CommandResult, Outcome, acquire_lock, lease_grant, granted, unknown, queued,
  not_acquired, released, not_holder, stale_token, no_lease, lease_granted, lease_renewed,
  lease_revoked, lease_expired, value_updated, not_found, noop,
}
use zuul.Fsm.Apply.{apply, dispatch}
use zuul.Fsm.Locks.{acquire}
use zuul.Fsm.Queries.{Status}
use zuul.Fsm.WellFormed.{Wf, Wf-same}
use zuul.Fsm.WellFormed.Apply.{apply-Wf}
use zuul.Fsm.Handover.{acquire-granted, owner_of}
use zuul.Cmd
use zuul.Consensus.{Codec}
use zuul.Consensus.Log.{Lossless}
use zuul.Session.{Session, Manager, SessionError, Proposed, propose, ensure_lease, ensure_found}
use zuul.Session.Lapse.{committed, at}
use zuul.Session.Committed.{propose-ok, at-Wf}
use zuul.Server.{Reply, answer, admit_client, require_key_and_client, try_reply}
use zuul.Server.Waiting.{try_lock, proposed, ensured}

-- The shards and this node's sessions.
abbrev pub Served : Type 0
Served = (ℕ → Fsm) × Manager

abbrev AllWf : Served → Type 0
AllWf s = (k : ℕ) → Wf [] (s.0 k)

-- A reply that tells the client that it holds the key, with a token: the shard has it so.
abbrev pub Holds : (Bytes → ℕ) → Bytes → Bytes → Served × Reply → Type 0
Holds shard name client (s, answer r) =
    r.acquired ≡ true
    → owner_of (get (s.0 (shard name)).locks name) ≡ some (client, r.fencing_token)
Holds shard name client (s, x) = Unit

try_reply-Holds :
    (shard : Bytes → ℕ) (name client : Bytes) (s : Served) (r : CommandResult) (o : Outcome)
    → (o ≡ granted → owner_of (get (s.0 (shard name)).locks name) ≡ some (client, r.fencing_token))
    → Holds shard name client (s, try_reply r o)
unfolding try_reply
try_reply-Holds shard name client s r granted h = λ _. h refl
try_reply-Holds shard name client s r not_acquired h = λ a. ground (arith, a)
try_reply-Holds shard name client s r no_lease h = tt
try_reply-Holds shard name client s r unknown h = tt
try_reply-Holds shard name client s r queued h = tt
try_reply-Holds shard name client s r released h = tt
try_reply-Holds shard name client s r not_holder h = tt
try_reply-Holds shard name client s r stale_token h = tt
try_reply-Holds shard name client s r lease_granted h = tt
try_reply-Holds shard name client s r lease_renewed h = tt
try_reply-Holds shard name client s r lease_revoked h = tt
try_reply-Holds shard name client s r lease_expired h = tt
try_reply-Holds shard name client s r value_updated h = tt
try_reply-Holds shard name client s r not_found h = tt
try_reply-Holds shard name client s r noop h = tt

-- A request that is admitted names its client.
admit_client-named :
    (policy : Authorizer) (identity name client : Bytes)
    → admit_client policy identity name client ≡ none
    → client ≢ []
unfolding admit_client require_key_and_client
admit_client-named policy identity name client e = λ q. ground (arith, q, e)

module _ {C R : Type 0} (commands : Codec Command C) (results : Codec CommandResult R)
    (now : ℕ) where
  abbrev with_sessions : Manager → (ℕ → Fsm) × Proposed → Served × Proposed
  with_sessions m (w, p) = ((w, m), p)

  -- The handlers' dispatcher and session manager.
  abbrev pub proposes : Served → ℕ → Command → Served × Proposed
  proposes (w, m) shard c =
      with_sessions m (propose (committed commands results) commands results w shard c)

  abbrev with_error : (ℕ → Fsm) × Manager × Option SessionError → Served × Option SessionError
  with_error (w, m, e) = ((w, m), e)

  abbrev pub ensures : Served → Bytes → ℕ → Served × Option SessionError
  ensures (w, m) client shard =
      with_error (ensure_lease (committed commands results) commands results w now m client shard)

  module _ (cb : Command → C) (rb : CommandResult → R) (lc : Lossless commands cb)
      (lr : Lossless results rb) where
    grant-AllWf :
        (w : ℕ → Fsm) (m : Manager) (client : Bytes) (k : ℕ) (o : Option Session)
        → client ≢ []
        → AllWf (w, m)
        → AllWf
            (with_error
              (ensure_found (committed commands results) commands results w now m client k o)).0
    unfolding apply
    grant-AllWf w m client k none n h = h
    grant-AllWf w m client k (some s) n h = elim (Option-cases (get s.shards k)) [
      | inr (u, e) ↦ rw e h
      | inl e ↦
          let c = lease_grant client s.ttl_ms now in
          rw (e, propose-ok commands results cb rb lc lr w k c _ refl)
            (λ j. at-Wf w k (apply (w k) (some c)).0 j (h j) (apply-Wf (w k) c n (h k)))
    ]

    -- What a handler leaves: every shard well formed, and the reply true.
    abbrev Sound : (Bytes → ℕ) → Bytes → Bytes → Served × Reply → Type 0
    Sound shard name client out = AllWf out.0 × Holds shard name client out

    module _ (shard : Bytes → ℕ) (policy : Authorizer) (identity : Bytes)
        (read : Served → ℕ → Bytes → Served × Option Status) (live : Served → Bool) where
      replied-Sound :
          (name client : Bytes) (w : ℕ → Fsm) (m : Manager)
          → AllWf (w, m)
          → Sound shard name client (
              proposed shard policy identity ensures proposes read live
                (λ u r. (u, try_reply r r.outcome))
                (proposes (w, m) (shard name) (Cmd.acquire name client true)))
      unfolding apply dispatch
      replied-Sound name client w m h =
          let k = shard name in
          let f = w k in
          let g = record f { revision = inc64 f.revision } in
          let c = acquire_lock name client true in
          let new = (acquire g name client none true).0 in
          let here : at w k new k ≡ new = if_pos (nat_key.dec k k) refl _ _ in
          rw (propose-ok commands results cb rb lc lr w k c _ refl) (
            (λ j. at-Wf w k new j (h j) (apply-Wf f c tt (h k))),
            try_reply-Holds shard name client (at w k new, m) (acquire g name client none true).1 _
                (λ q.
                  ap (λ x. owner_of (get x.locks name)) here
                  ∙ acquire-granted g name client none true (Wf-same refl refl (h k)) q),
          )

      ensured-Sound :
          (name client : Bytes) (p : Served × Option SessionError)
          → AllWf p.0
          → Sound shard name client (
              ensured shard policy identity ensures proposes read live
                (λ u.
                  proposed shard policy identity ensures proposes read live
                    (λ v r. (v, try_reply r r.outcome))
                    (proposes u (shard name) (Cmd.acquire name client true)))
                p)
      ensured-Sound name client (u, some e) h = (h, tt)
      ensured-Sound name client (u, none) h = replied-Sound name client u.0 u.1 h

      -- Over a dispatcher that reaches every shard, with lossless marshallers and every shard well formed: after a
      -- TryLock every shard is well formed still, and if the reply says that the lock is acquired, under a
      -- token, the client holds the key in the shard that the key is routed to, under that token.
      pub try_lock-Holds :
          (name client : Bytes) (w : ℕ → Fsm) (m : Manager)
          → ((k : ℕ) → Wf [] (w k))
          → let out =
              try_lock shard policy identity ensures proposes read live (w, m) name client in
            ((k : ℕ) → Wf [] (out.0.0 k)) × Holds shard name client out
      unfolding try_lock ensure_lease
      try_lock-Holds name client w m h =
          elim (Option-cases (admit_client policy identity name client)) [
            | inr (e, q) ↦ rw q (h, tt)
            | inl q ↦ rw q (
                ensured-Sound name client (ensures (w, m) client (shard name)) (
                  grant-AllWf w m client (shard name) (get m client)
                    (admit_client-named policy identity name client q) h))
          ]
