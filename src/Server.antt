-- ===== src/Server.antt =====
-- The request handlers: internal/server/server.go and election.go. The router, the sessions, the
-- dispatcher and the reader are interfaces there, and parameters here; a `World` is all their state.
pub mod Limits
pub mod Waiting
pub mod Backed
pub mod Granted
pub mod Stream
pub mod Observe
pub mod Browse
pub mod Cluster
pub mod Joining
pub mod Confined
use zuul.Shared.{
  ℕ, ◌+◌, Bytes, Bool, true, false, Option, none, some, List, [], ◌∷◌, ite, ◌≟◌, if◌then◌else◌,
  ◌&&◌, not, bytes_key, signed_ltb,
}
use zuul.Auth.Keypath.{validate, PathError}
use zuul.Auth.Authz.{Authorizer, Op, authorize}
use zuul.Auth.Authz
use zuul.Fsm.Types.{
  Event, Command, CommandResult, Outcome, granted, queued, no_lease, not_acquired, released,
  stale_token, not_holder, value_updated,
}
use zuul.Fsm.Queries.{Status}
use zuul.Cmd
use zuul.Session.{SessionError, no_session, marshal_error, backend_error, Proposed, got, refused}

-- `backend` is what `grpcErr` makes of an error of the dispatcher or of a read: the error itself where it carries a
-- status, and otherwise an unavailable node. The errors of the session manager carry their own.
pub data ServerError : Type 0 where
  missing_client_id : ServerError
  invalid_key_path : PathError → ServerError
  unauthorized_key no_open_session backend no_live_lease unexpected_outcome : ServerError
  session_marshal session_backend : ServerError
  stale_fencing_token not_lock_holder not_leader wait_ended : ServerError

-- The responses of Lock, TryLock and Campaign.
pub record Response : Type 0 where
  pub acquired : Bool
  pub lock_key : Bytes
  pub fencing_token : ℕ
  pub revision : ℕ
  pub current_holder : Bytes

pub data Reply : Type 0 where
  answer : Response → Reply
  at_revision : ℕ → Reply
  status_is : Status → Reply
  error : ServerError → Reply

abbrev pub path_error : Option PathError → Option ServerError
path_error none = none
path_error (some e) = some (invalid_key_path e)

unfoldable pub require_key_path : Bytes → Option ServerError
unfolding validate
require_key_path key = path_error (validate key)

unfoldable pub require_key_and_client : Bytes → Bytes → Option ServerError
unfolding require_key_path
require_key_and_client key client =
    ite (client ≟ []) (some missing_client_id) (require_key_path key)

-- The authorization, once the request is well formed.
abbrev pub authorized : Authorizer → Bytes → Bytes → Op → Option ServerError → Option ServerError
authorized policy identity key op (some e) = some e
authorized policy identity key op none =
    if authorize policy identity key op then none else some unauthorized_key

-- What every handler starts with; none where it goes on.
unfoldable pub admit_client : Authorizer → Bytes → Bytes → Bytes → Option ServerError
unfolding require_key_and_client authorize
admit_client policy identity key client =
    authorized policy identity key Authz.write (require_key_and_client key client)

unfoldable pub admit_reader : Authorizer → Bytes → Bytes → Option ServerError
unfolding require_key_path authorize
admit_reader policy identity key = authorized policy identity key Authz.read (require_key_path key)

abbrev pub session_error : SessionError → ServerError
session_error no_session = no_open_session
session_error marshal_error = session_marshal
session_error backend_error = session_backend

-- The response of a caller that holds the key.
abbrev pub holding : Bytes → ℕ → ℕ → Reply
holding key token revision = answer (record {
  acquired = true;
  lock_key = key;
  fencing_token = token;
  revision = revision;
  current_holder = [];
})

-- The response of a bounded wait that has ended.
abbrev pub not_holding : Bytes → Reply
not_holding key = answer (record {
  acquired = false;
  lock_key = key;
  fencing_token = 0;
  revision = 0;
  current_holder = [];
})

-- The status shows that the client holds the key.
abbrev pub held_status : Bytes → Bytes → Option Status → Option Reply
held_status name client none = none
held_status name client (some st) =
    if st.held
    then ite (st.holder ≟ client) (some (holding name st.token st.revision)) none
    else none

-- The reply to a result that is not a wait.
unfoldable pub try_reply : CommandResult → Outcome → Reply
try_reply r granted = holding r.lock_key r.fencing_token r.revision
try_reply r not_acquired = answer (record {
  acquired = false;
  lock_key = r.lock_key;
  fencing_token = 0;
  revision = r.revision;
  current_holder = r.current_holder;
})
try_reply r no_lease = error no_live_lease
try_reply r other = error unexpected_outcome

unfoldable pub unlock_reply : CommandResult → Outcome → Reply
unlock_reply r released = at_revision r.revision
unlock_reply r stale_token = error stale_fencing_token
unlock_reply r not_holder = error not_lock_holder
unlock_reply r other = error unexpected_outcome

unfoldable pub resign_reply : CommandResult → Outcome → Reply
resign_reply r released = at_revision r.revision
resign_reply r stale_token = error stale_fencing_token
resign_reply r not_holder = error not_leader
resign_reply r other = error unexpected_outcome

unfoldable pub proclaim_reply : CommandResult → Outcome → Reply
proclaim_reply r value_updated = at_revision r.revision
proclaim_reply r stale_token = error stale_fencing_token
proclaim_reply r not_holder = error not_leader
proclaim_reply r other = error unexpected_outcome
