-- ===== src/Server/Observe.antt =====
-- The readers of an election: `Leader` and `Observe` of internal/server/election.go. The reader and the router
-- are parameters; a subscription's events, each with whether it could be sent, are a list.
use zuul.Shared.{
  ℕ, Bytes, Bool, true, false, Option, none, some, List, [], ◌∷◌, ite, ◌≟◌, if◌then◌else◌,
  bytes_key,
}
use zuul.Auth.Authz.{Authorizer}
use zuul.Fsm.Types.{Event}
use zuul.Fsm.Queries.{Status}
use zuul.Server.{ServerError, backend, admit_reader}

pub record LeaderEvent : Type 0 where
  pub has_leader : Bool
  pub leader_client_id : Bytes
  pub fencing_token : ℕ
  pub value : Option Bytes
  pub revision : ℕ

unfoldable pub status_to_leader_event : Status → LeaderEvent
status_to_leader_event st = record {
  has_leader = st.held;
  leader_client_id = st.holder;
  fencing_token = st.token;
  value = st.value;
  revision = st.revision;
}

unfoldable pub event_to_leader_event : Event → LeaderEvent
event_to_leader_event e = record {
  has_leader = ite (e.holder ≟ []) false true;
  leader_client_id = e.holder;
  fencing_token = e.token;
  value = e.value;
  revision = e.revision;
}

pub data LeaderReply : Type 0 where
  leader_is : LeaderEvent → LeaderReply
  leader_refused : ServerError → LeaderReply

abbrev pub read_leader : Option Status → LeaderReply
read_leader none = leader_refused backend
read_leader (some st) = leader_is (status_to_leader_event st)

abbrev pub admitted_leader : LeaderReply → Option ServerError → LeaderReply
admitted_leader reply (some e) = leader_refused e
admitted_leader reply none = reply

-- `read` is the read of the mode asked for.
unfoldable pub leader :
    Authorizer → (Bytes → ℕ) → (ℕ → Bytes → Option Status) → Bytes → Bytes → LeaderReply
unfolding status_to_leader_event admit_reader
leader policy shard read identity name =
    admitted_leader (read_leader (read (shard name) name)) (admit_reader policy identity name)

-- What an Observe stream has sent, and how it ended: refused, the client gone, or a send that failed.
pub data StreamEnd : Type 0 where
  refused_with : ServerError → StreamEnd
  disconnected : StreamEnd
  send_failed : StreamEnd

abbrev pub Observed : Type 0
Observed = List LeaderEvent × StreamEnd

abbrev pub with_event : LeaderEvent → Observed → Observed
with_event e (es, end) = (e ∷ es, end)

-- The loop, up to the end of the request's context.
unfoldable pub send_events : List (Event × Bool) → Observed
unfolding event_to_leader_event
send_events [] = ([], disconnected)
send_events ((e, sent) ∷ es) =
    let rest = send_events es in
    if sent then with_event (event_to_leader_event e) rest else ([], send_failed)

abbrev pub send_status : Bool → List (Event × Bool) → Option Status → Observed
send_status sent events none = ([], refused_with backend)
send_status sent events (some st) =
    if sent then with_event (status_to_leader_event st) (send_events events) else ([], send_failed)

abbrev pub admitted_observe : Observed → Option ServerError → Observed
admitted_observe out (some e) = ([], refused_with e)
admitted_observe out none = out

unfoldable pub observe :
    Authorizer
    → (Bytes → ℕ)
    → (ℕ → Bytes → Option Status)
    → Bytes
    → Bytes
    → Bool
    → List (Event × Bool)
    → Observed
unfolding send_events admit_reader
observe policy shard read identity name sent events =
    admitted_observe (send_status sent events (read (shard name) name))
      (admit_reader policy identity name)
