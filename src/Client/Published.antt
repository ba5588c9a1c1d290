-- ===== src/Client/Published.antt =====
-- The endpoint that a leader has published: client/master.go over the handlers and the shards.
use zuul.Shared.{
  ℕ, Bytes, Bool, true, false, Option, none, some, [], ◌⊎◌, inl, inr, if◌then◌else◌, ◌≡◌, ◌≢◌, refl,
  ap, ◌∙◌, arith, bytes_key, sym,
}
use zuul.GoMap.{get}
use zuul.Auth.Authz.{Authorizer}
use zuul.Fsm.Types.{Fsm, Lock}
use zuul.Fsm.Queries.{status}
use zuul.Consensus.{Codec}
use zuul.Server.{ServerError, admit_reader}
use zuul.Server.Observe
use zuul.Server.Observe.{
  LeaderReply, LeaderEvent, leader_is, leader_refused, status_to_leader_event,
}
use zuul.Client.Election.{
  Election, Endpoint, master_is, validate_endpoint, marshal_endpoint, decode_endpoint, master,
  leader, leader_of, parsed,
}

abbrev pub as_event : LeaderReply → ServerError ⊎ LeaderEvent
as_event (leader_is e) = inr e
as_event (leader_refused x) = inl x

-- A call of Leader, with reads of the shards' states.
abbrev pub leader_call :
    Authorizer → (Bytes → ℕ) → Bytes → (ℕ → Fsm) → Bytes → (ℕ → Fsm) × (ServerError ⊎ LeaderEvent)
leader_call policy shard identity w name =
    (w, as_event (Observe.leader policy shard (λ k n. some (status (w k) n)) identity name))

-- What is marshalled of the endpoint is read back as it.
abbrev pub RoundTrips : Codec Endpoint (Option Bytes) → Endpoint → Type 0
RoundTrips values ep =
    (v : Option Bytes) → values.marshal ep ≡ some v → values.unmarshal v ≡ some ep

module _ (values : Codec Endpoint (Option Bytes)) where
  decode-marshal :
      (ep : Endpoint) (v : Option Bytes)
      → RoundTrips values ep
      → marshal_endpoint values (some ep) ≡ some v
      → decode_endpoint values v ≡ some ep
  unfolding marshal_endpoint decode_endpoint
  decode-marshal ep v h e = by_check (validate_endpoint (some ep)) refl
    where
      by_check :
          (b : Bool) → validate_endpoint (some ep) ≡ b → parsed (values.unmarshal v) ≡ some ep
      by_check false q = ground (arith, q, e)
      by_check true q =
          rw (h v (sym (ap (λ b. if b then values.marshal ep else none) q) ∙ e)) (rw q refl)

  -- If what is marshalled of an endpoint is read back as it, a client may read an election's key, and a client that has marshalled the
  -- endpoint leads the election with what came of it for its value, Master returns that endpoint, with the
  -- leader's client id, its fencing token and the shard's revision.
  pub master-marshal :
      (policy : Authorizer) (shard : Bytes → ℕ) (identity : Bytes) (w : ℕ → Fsm) (e : Election)
      (lk : Lock) (ep : Endpoint)
      → RoundTrips values ep
      → admit_reader policy identity e.name ≡ none
      → get (w (shard e.name)).locks e.name ≡ some lk
      → lk.holder ≢ []
      → marshal_endpoint values (some ep) ≡ some lk.value
      → master values (leader_call policy shard identity) w e ≡ (
        w,
        master_is (record {
          endpoint = ep;
          leader_id = lk.holder;
          master_token = lk.token;
          at_revision = (w (shard e.name)).revision;
        }),
      )
  unfolding master leader leader_of Observe.leader status status_to_leader_event
  master-marshal policy shard identity w e lk ep h a g n m =
      rw a (rw g (ground (arith, n, decode-marshal ep lk.value h m)))
