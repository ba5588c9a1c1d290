-- ===== src/Examples/Serving.antt =====
-- The theorems on the adapters, sessions and handlers, with marshallers that keep the message as it is.
use mathlib.Core.Option
use zuul.Watch.{Hub, SubArgs, new_hub, members, subscribe, next_event}
use zuul.Watch.Latest.{IsFresh, notify_all, latest, next_event-latest}
use zuul.Shared.{
  ℕ, codes, Bytes, Bool, true, false, Option, none, some, List, [], ◌∷◌, map, ◌≡◌, ◌≤◌, ◌<◌, ◌&&◌,
  ◌⊎◌, refl, arith, bytes_key, nat_key, ite, ◌≟◌, inr, ◌/◌, ◌+◌, ◌*◌,
}
use zuul.GoMap.{get}
use zuul.Fsm.Types.{Fsm, Command, CommandResult, Event, lease_grant, acquire_lock, campaign, new}
use zuul.Fsm.Leases.{lease_deadline}
use zuul.Fsm.Snapshot.{Snapshot}
use zuul.Fsm.Queries.{Status, status}
use zuul.Fsm.Apply.{run}
use zuul.Fsm.Snapshot.RoundTrip.{SameShard}
use zuul.Auth.Authz.{allow_all}
use zuul.Consensus.{Codec, update, updated, save_snapshot, recover_from_snapshot}
use zuul.Consensus.Log.{Lossless, entry, log_of, answers, update-run, recover-log, KeepsPlain}
use zuul.Session.{Session, Manager, Proposed, SessionError, refused, backend_error, keep_session}
use zuul.Session.Lapse.{keep_session-lapsed, committed, lists, leased}
use zuul.Server.Limits.{clamp_ttl, clamp_ttl-bounds, millisecond}
use zuul.Server.Waiting.{wait_for}
use zuul.Server.Backed.{Shown, wait_for-Shown}
use zuul.Examples.{key, ann, bob, shard}

-- The marshallers that keep the message.
abbrev pub plain : (M : Type 0) → Codec M M
plain M = record { marshal = λ m. some m; unmarshal = λ m. some m }

abbrev pub same : {M : Type 0} → M → M
same m = m

pub plain-Lossless : (M : Type 0) → Lossless (plain M) same
plain-Lossless M m = (refl, refl)

abbrev batch : List (ℕ × Command)
batch = (5, lease_grant ann 30000 1000) ∷ (6, acquire_lock key ann false) ∷ []

update-run_example :
    update (plain Command) (plain CommandResult) (new true) (map (entry same) batch)
    ≡ (run (new true) (log_of batch), updated (answers same same (new true) batch))
update-run_example =
    update-run (plain Command) (plain CommandResult) same same (plain-Lossless Command)
      (plain-Lossless CommandResult) (new true) batch (tt, (tt, tt))

plain-KeepsPlain : KeepsPlain (plain Snapshot) same
plain-KeepsPlain f p = (refl, refl)

-- Ann leads an election with a value.
abbrev led : List (ℕ × Command)
led = (5, lease_grant ann 30000 1000) ∷ (6, campaign key ann (some (codes "db1"))) ∷ []

recover-log_example :
    let f = (update (plain Command) (plain CommandResult) (new true) (map (entry same) led)).0 in
    (b : Snapshot) × (h : Fsm) × (save_snapshot (plain Snapshot) f ≡ some b)
    × (recover_from_snapshot (plain Snapshot) (new false) b ≡ some h)
    × SameShard (run (new true) (log_of led)) h
recover-log_example =
    recover-log (plain Command) (plain CommandResult) same same (λ r. refl) (plain Snapshot) same
      true led (new false) plain-KeepsPlain (tt, (tt, tt)) (refl, (refl, tt))
      (tt, ((λ e. ground (arith, e)), tt)) ((λ e. ground (arith, e)), (tt, tt))

-- Shard 1 has Ann's lease, shard 2 has lost it.
abbrev shards : ℕ → Fsm
shards j = ite (nat_key.dec j 1) shard (new true)

abbrev session : Session
session = record { ttl_ms = 30000; shards = (1, tt) ∷ (2, tt) ∷ [] }

abbrev sessions : Manager
sessions = (ann, session) ∷ []

ann-session : get sessions ann ≡ some session
unfolding get zuul.Shared.bytes_dec
ann-session = refl

abbrev round : (ℕ → Fsm) × Manager × (SessionError ⊎ ℕ)
round =
    keep_session (committed (plain Command) (plain CommandResult)) (plain Command)
      (plain CommandResult) shards 5000 sessions ann

keep_session-lapsed_example :
    ((d : Bytes) (j : ℕ)
      → lists (get round.1 d) j
        ≡ ite
            (d ≟ ann)
            (lists (get sessions d) j && leased shards ann j)
            (lists (get sessions d) j))
    × (round.2 ≡ inr (lease_deadline 5000 30000))
keep_session-lapsed_example =
    keep_session-lapsed (plain Command) (plain CommandResult) same same (plain-Lossless Command)
      (plain-Lossless CommandResult) ann 5000 shards sessions session ann-session

-- A world of one shard, to which no command gets through.
abbrev no_propose : Fsm → ℕ → Command → Fsm × Proposed
no_propose f s c = (f, refused backend_error)

abbrev read_shard : Fsm → ℕ → Bytes → Fsm × Option Status
read_shard f s name = (f, some (status f name))

abbrev no_ensure : Fsm → Bytes → ℕ → Fsm × Option SessionError
no_ensure f client s = (f, none)

abbrev promotion : Event
promotion = record { key = key; holder = bob; token = 3; value = none; revision = 5 }

wait_for-Shown_example :
    Shown
      (λ _. 1)
      allow_all
      bob
      no_ensure
      no_propose
      read_shard
      (λ _. true)
      key
      bob
      (promotion ∷ [])
      (wait_for
        (λ _. 1)
        allow_all
        bob
        no_ensure
        no_propose
        read_shard
        (λ _. true)
        shard
        key
        bob
        9000
        true
        (promotion ∷ [])).1
wait_for-Shown_example =
    wait_for-Shown (λ _. 1) allow_all bob no_ensure no_propose read_shard (λ _. true) key bob shard
      9000 true (promotion ∷ [])

clamp_ttl-bounds_example :
    (1000000000 / millisecond ≤ clamp_ttl 30000000000 1000000000 300000000000 9223372036855)
    × (clamp_ttl 30000000000 1000000000 300000000000 9223372036855 ≤ 300000000000 / millisecond)
clamp_ttl-bounds_example =
    clamp_ttl-bounds 30000000000 1000000000 300000000000 (omega arith) (omega arith) (omega arith)
      9223372036855

abbrev interest : SubArgs
interest = record { args_key = key; args_identity = bob; args_track = true }

new_hub-IsFresh : IsFresh (λ _. 5) new_hub
unfolding new_hub members get
new_hub-IsFresh k = refl

next_event-latest_example :
    (g : Hub) × (subscribe (λ _. 5) new_hub interest ≡ some (g, new_hub.next_id))
    × (Option.map
          (λ (p : Event × Hub). p.0)
          (next_event (λ _. 5) (notify_all (λ _. 5) g (promotion ∷ promotion ∷ [])) new_hub.next_id)
        ≡ latest key none (promotion ∷ promotion ∷ []))
next_event-latest_example =
    next_event-latest (λ _. 5) new_hub interest (promotion ∷ promotion ∷ []) new_hub-IsFresh
      (λ e. ground (arith, e))
