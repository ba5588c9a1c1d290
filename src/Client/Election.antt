-- ===== src/Client/Election.antt =====
-- An election of the client library: client/election.go, and client/master.go, which resolves a leader to the
-- endpoint that it has published. The calls of the Election service are parameters.
use zuul.Shared.{
  ℕ, Bytes, Bool, true, false, not, ◌||◌, Option, none, some, List, [], ◌∷◌, ◌⊎◌, inl, inr,
  if◌then◌else◌, ◌==◌, ltb,
}
use zuul.Consensus.{Codec}
use zuul.Server.{Response}
use zuul.Server.Observe.{LeaderEvent}
use zuul.Client.Mutex.{ClientError, call_failed, not_acquired, not_held, failure, deadline_or}

pub record Election : Type 0 where
  pub name : Bytes
  pub token : ℕ
  pub leading : Bool

unfoldable pub new_election : Bytes → Election
new_election name = record { name = name; token = 0; leading = false }

pub record Leader : Type 0 where
  pub has : Bool
  pub id : Bytes
  pub leader_token : ℕ
  pub value : Option Bytes
  pub revision : ℕ

unfoldable pub leader_of : LeaderEvent → Leader
leader_of r = record {
  has = r.has_leader;
  id = r.leader_client_id;
  leader_token = r.fencing_token;
  value = r.value;
  revision = r.revision;
}

module _ {World F : Type 0} (client : Bytes) where
  abbrev pub led :
      (F → Bool) → Election → World × (F ⊎ Response) → World × Election × Option (ClientError F)
  led timed_out e (w, inl x) = (w, e, some (failure timed_out x))
  led timed_out e (w, inr r) =
      if r.acquired
      then (w, record e { token = r.fencing_token; leading = true }, none)
      else (w, e, some not_acquired)

  unfoldable pub campaign :
      (F → Bool)
      → (World → Bytes → Bytes → Option Bytes → ℕ → World × (F ⊎ Response))
      → World
      → Election
      → Option Bytes
      → Option ℕ
      → World × Election × Option (ClientError F)
  campaign timed_out call w e value deadline =
      led timed_out e (call w e.name client value (deadline_or deadline))

  abbrev pub proclaimed : World × (F ⊎ ℕ) → World × Option (ClientError F)
  proclaimed (w, inl x) = (w, some (call_failed x))
  proclaimed (w, inr r) = (w, none)

  unfoldable pub proclaim :
      (World → Bytes → Bytes → ℕ → Option Bytes → World × (F ⊎ ℕ))
      → World
      → Election
      → Option Bytes
      → World × Option (ClientError F)
  proclaim call w e value =
      if e.leading then proclaimed (call w e.name client e.token value) else (w, some not_held)

  abbrev pub resigned : Election → World × (F ⊎ ℕ) → World × Election × Option (ClientError F)
  resigned e (w, inl x) = (w, e, some (call_failed x))
  resigned e (w, inr r) = (w, record e { leading = false }, none)

  unfoldable pub resign :
      (World → Bytes → Bytes → ℕ → World × (F ⊎ ℕ))
      → World
      → Election
      → World × Election × Option (ClientError F)
  resign call w e =
      if e.leading then resigned e (call w e.name client e.token) else (w, e, some not_held)

abbrev pub as_leader : {World F : Type 0} → World × (F ⊎ LeaderEvent) → World × (F ⊎ Leader)
as_leader (w, inl x) = (w, inl x)
as_leader (w, inr r) = (w, inr (leader_of r))

unfoldable pub leader :
    {World F : Type 0}
    → (World → Bytes → World × (F ⊎ LeaderEvent))
    → World
    → Election
    → World × (F ⊎ Leader)
unfolding leader_of
leader call w e = as_leader (call w e.name)

-- An endpoint, with its metadata.
pub record Endpoint : Type 0 where
  pub host : Bytes
  pub port : ℕ
  pub labels : List (Bytes × Bytes)

pub record Master : Type 0 where
  pub endpoint : Endpoint
  pub leader_id : Bytes
  pub master_token : ℕ
  pub at_revision : ℕ

abbrev is_blank : Bytes → Bool
is_blank [] = true
is_blank (c ∷ cs) = false

-- true for an endpoint that can be dialed; none is nil
unfoldable pub validate_endpoint : Option Endpoint → Bool
validate_endpoint none = false
validate_endpoint (some ep) = not (is_blank ep.host || (ep.port == 0 || ltb 65535 ep.port))

abbrev pub if_valid : Endpoint → Option Endpoint
if_valid ep = if validate_endpoint (some ep) then some ep else none

abbrev pub parsed : Option Endpoint → Option Endpoint
parsed none = none
parsed (some ep) = if_valid ep

-- What `Master` returns.
pub data MasterReply (F : Type 0) : Type 0 where
  master_is : Master → MasterReply F
  leaderless not_an_endpoint : MasterReply F
  master_failed : F → MasterReply F

abbrev pub mastered : Leader → Option Endpoint → Option Master
mastered info none = none
mastered info (some ep) = some (record {
  endpoint = ep;
  leader_id = info.id;
  master_token = info.leader_token;
  at_revision = info.revision;
})

-- `values` are the generated marshallers of an Endpoint.
module _ (values : Codec Endpoint (Option Bytes)) where
  unfoldable pub marshal_endpoint : Option Endpoint → Option (Option Bytes)
  unfolding validate_endpoint
  marshal_endpoint none = none
  marshal_endpoint (some ep) = if validate_endpoint (some ep) then values.marshal ep else none

  unfoldable pub decode_endpoint : Option Bytes → Option Endpoint
  decode_endpoint value = parsed (values.unmarshal value)

  -- none where nothing is to be delivered
  unfoldable pub master_from_info : Leader → Option Master
  unfolding decode_endpoint
  master_from_info info = if info.has then mastered info (decode_endpoint info.value) else none

  -- The events up to the end of the follower: what it has last resolved, and what it has sent.
  abbrev pub delivered : Option Master → List Master → List Master
  delivered none ms = ms
  delivered (some m) ms = m ∷ ms

  abbrev pub followed : Option Master → Option Master × List Master → Option Master × List Master
  followed m (now, sent) = (now, delivered m sent)

  unfoldable pub follow : Option Master → List Leader → Option Master × List Master
  unfolding master_from_info
  follow current [] = (current, [])
  follow current (info ∷ es) = let m = master_from_info info in followed m (follow m es)

  abbrev pub resolved : {F : Type 0} → Option Master → MasterReply F
  resolved none = not_an_endpoint
  resolved (some m) = master_is m

  abbrev pub with_leader : {World F : Type 0} → World × (F ⊎ Leader) → World × MasterReply F
  with_leader (w, inl x) = (w, master_failed x)
  with_leader (w, inr info) =
      (w, if info.has then resolved (mastered info (decode_endpoint info.value)) else leaderless)

  unfoldable pub master :
      {World F : Type 0}
      → (World → Bytes → World × (F ⊎ LeaderEvent))
      → World
      → Election
      → World × MasterReply F
  unfolding leader decode_endpoint
  master call w e = with_leader (leader call w e)
