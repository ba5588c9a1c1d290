-- ===== src/Examples/Clients.antt =====
-- The theorems on the client library, applied.
use zuul.Shared.{
  ℕ, ◌==◌, suc, Bytes, Bool, true, false, Option, none, some, List, [], ◌∷◌, ◌≡◌, ◌≢◌, ◌⊎◌, inl,
  inr, refl, arith, codes, bytes_key, nat_key, if◌then◌else◌, is_some, ◌<◌,
}
use zuul.GoMap.{get}
use zuul.Auth.Authz.{allow_all}
use zuul.Fsm.Types.{Fsm, Lock, Command, CommandResult, new}
use zuul.Fsm.Locks
use zuul.Fsm.Leases
use zuul.Fsm.Apply.{run, apply}
use zuul.Consensus.{Codec}
use zuul.Session.{Session, Manager}
use zuul.Session
use zuul.Server.{ServerError, Response, admit_reader}
use zuul.Server.Waiting
use zuul.Server.Granted.{Served}
use zuul.Client.Mutex.{new_mutex, try_lock}
use zuul.Client.Released.{never, try_call, GivenBack, unlock-try_lock}
use zuul.Client.Options.{
  Options, DialOption, prepare, transport, errors_unary, errors_stream, token_unary, token_stream,
}
use zuul.Client.Options
use zuul.Client.Encrypted.{Dials, sends_token, channel, prepare-Dials}
use zuul.Client.Options.{extra, apply_options}
use zuul.Client.Session.{Client, Tick, heartbeat}
use zuul.Client.Kept.{Kept, heartbeat-Kept}
use zuul.Client.Election.{new_election, Endpoint, master, master_is, marshal_endpoint}
use zuul.Client.Published.{leader_call, master-marshal}
use zuul.Shared.{ite, ◌≟◌}
use zuul.Node.Gate.{
  BearerAuth, Context, Checked, passed, denied, identity_mismatch, check, class_client, trim_right,
  trim_space,
}
use zuul.Client.Header
use zuul.Client.Header.{bare, token_unary-check}
use zuul.Examples.{key, ann, bob, shard, shard-Wf}
use zuul.Examples.Serving.{plain, same, plain-Lossless}

abbrev everywhere : ℕ → Fsm
everywhere k = shard

abbrev anns_session : Session
anns_session = record { ttl_ms = 30000; shards = (1, tt) ∷ [] }

abbrev sessions : Manager
sessions = (ann, anns_session) ∷ []

abbrev calls_try : Served → Bytes → Bytes → Served × (ServerError ⊎ Response)
calls_try =
    try_call (plain Command) (plain CommandResult) 2000 same same (plain-Lossless Command)
      (plain-Lossless CommandResult) (λ k. 1) allow_all ann (λ u k n. (u, none)) (λ u. true)

took : (try_lock ann never calls_try (everywhere, sessions) (new_mutex key)).2 ≡ inr true
unfolding try_lock Waiting.try_lock zuul.Shared.bytes_dec new_mutex Session.ensure_lease get apply
    Locks.acquire run Leases.lease_grant new
took = refl

unlock-try_lock_example :
    let out = try_lock ann never calls_try (everywhere, sessions) (new_mutex key) in
    (lk : Lock) × GivenBack
      (plain Command)
      (plain CommandResult)
      2000
      same
      same
      (plain-Lossless Command)
      (plain-Lossless CommandResult)
      (λ k. 1)
      allow_all
      ann
      (λ u k n. (u, none))
      (λ u. true)
      key
      ann
      out.1
      out.0
      lk
unlock-try_lock_example =
    unlock-try_lock (plain Command) (plain CommandResult) 2000 same same (plain-Lossless Command)
      (plain-Lossless CommandResult) (λ k. 1) allow_all ann (λ u k n. (u, none)) (λ u. true)
      everywhere sessions key ann (λ k. shard-Wf) took

-- Credentials are their security protocol, and a source of tokens is a token.
abbrev no_msi : ℕ → Option Bytes
no_msi i = none

abbrev tls : Bytes
tls = codes "tls"

-- The caller's own dial option 8 sets credentials, those of insecure.NewCredentials().
abbrev own_creds : ℕ → Option Bytes
own_creds x = if x == 8 then some (codes "insecure") else none

abbrev options : List (Options Bytes ℕ Bytes ℕ → Option (Options Bytes ℕ Bytes ℕ))
options =
    (λ o. Options.with_auth_token (codes "secret") o)
    ∷ (λ o. Options.with_transport_credentials tls o)
    ∷ (λ o. Options.with_dial_options (8 ∷ []) o)
    ∷ []

abbrev dialed : List (DialOption Bytes Bytes ℕ)
dialed =
    transport tls
    ∷ extra 8
    ∷ errors_unary
    ∷ errors_stream
    ∷ token_unary (codes "secret")
    ∷ token_stream (codes "secret")
    ∷ []

prepared : prepare same (codes "insecure") same no_msi (codes "a:1" ∷ []) options ≡ some dialed
unfolding prepare Options.with_dial_options Options.with_auth_token
    Options.with_transport_credentials Options.defaults Options.no_options zuul.Shared.bytes_dec
prepared = refl

token-sent : sends_token dialed ≡ true
unfolding sends_token
token-sent = refl

prepare-Dials_example :
    Dials same own_creds (apply_options options (Options.defaults Options.no_options)) dialed
prepare-Dials_example =
    prepare-Dials same (codes "insecure") own_creds same no_msi (codes "a:1" ∷ []) options dialed
      prepared token-sent

-- The token is sent over a channel in clear text.
token-in_clear : channel own_creds none dialed ≡ some (codes "insecure")
unfolding channel
token-in_clear = refl

-- A client whose first stream is open. A pulse fails; the first attempt to reconnect fails, the second does not.
abbrev fresh_client : Client ℕ
fresh_client = record {
  ttl = 30000000000;
  stream = some 0;
  ended = [];
  streams_made = 1;
  deadline_nano = 40000000000;
  lost_err = none;
  done_closed = 0;
}

fresh_client-Kept : Kept fresh_client
fresh_client-Kept = record { streams = λ i h. inr (ground (arith, h)); once = refl }

abbrev ticks : List (Tick ℕ)
ticks =
    record { pulse_err = none; now = 10000000000; attempts = []; cancelled = false }
    ∷ record {
      pulse_err = some 14;
      now = 20000000000;
      attempts = inl 14 ∷ inr 21000000000 ∷ [];
      cancelled = false;
    }
    ∷ []

heartbeat-Kept_example : Kept (heartbeat same 14 fresh_client ticks)
heartbeat-Kept_example = heartbeat-Kept same 14 ticks fresh_client fresh_client-Kept

-- An endpoint is its host on the wire.
abbrev endpoint : Endpoint
endpoint = record { host = codes "db1"; port = 5432; labels = [] }

abbrev host_only : Codec Endpoint (Option Bytes)
host_only = record { marshal = λ ep. some (some ep.host); unmarshal = λ v. some endpoint }

abbrev published : Lock
published = record { name = key; holder = bob; token = 4; value = some (codes "db1"); queue = [] }

abbrev led : ℕ → Fsm
led k = record {
  locks = (key, published) ∷ [];
  leases = [];
  seq = 4;
  revision = 9;
  notifier = false;
  events = [];
}

readable : admit_reader allow_all ann (new_election key).name ≡ none
unfolding admit_reader new_election zuul.Shared.bytes_dec
readable = refl

leads : get (led 1).locks (new_election key).name ≡ some published
unfolding get new_election zuul.Shared.bytes_dec
leads = refl

marshalled : marshal_endpoint host_only (some endpoint) ≡ some published.value
unfolding marshal_endpoint
marshalled = refl

master-marshal_example :
    master host_only (leader_call allow_all (λ k. 1) ann) led (new_election key) ≡ (
      led,
      master_is
          (record { endpoint = endpoint; leader_id = bob; master_token = 4; at_revision = 9 }),
    )
master-marshal_example =
    master-marshal host_only allow_all (λ k. 1) ann led (new_election key) published endpoint
      (λ v e. refl) readable leads (λ e. ground (arith, e)) marshalled

abbrev door : BearerAuth
door = record { tokens = (codes "secret", ann) ∷ []; oidc = none }

known : get door.tokens (codes "secret") ≡ some ann
unfolding get zuul.Shared.bytes_dec
known = refl

untrimmed : trim_right (codes "secret") ≡ codes "secret"
unfolding trim_right zuul.Shared.bytes_dec
untrimmed = refl

token_unary-check_example :
    let carried : Context → Checked = λ c. passed (record c { attached = some ann }) in
    let checked : Context → Checked = λ c. check same door false none [] c class_client in
    (ctx : Context) × (Header.token_unary (some (codes "secret")) bare ≡ some ctx)
    × (checked ctx ≡ carried ctx)
    × (checked (Header.user_unary bob ctx) ≡ (
        ite (trim_space bob ≟ []) (carried (Header.user_unary bob ctx)) (
          ite
            (trim_space bob ≟ ann)
            (carried (Header.user_unary bob ctx))
            (denied identity_mismatch))))
token_unary-check_example =
    token_unary-check same door false none [] (codes "secret") ann bob (λ e. ground (arith, e))
      untrimmed (λ e. ground (arith, e)) known
