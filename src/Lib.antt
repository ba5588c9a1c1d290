-- ===== src/Lib.antt =====
-- Zuul: a distributed lock and leader-election service (Go, internal/ and client/). A key lives in one of several
-- shards; each shard is a replicated state machine that a Raft log drives. A client opens a session,
-- which has a lease in every shard that the client touches, and asks a node to lock a key; the node
-- proposes a command to the key's shard and waits for the caller's turn.
--
-- The parts, and the files that model them:
--   Fsm: a shard's state machine, internal/raft/fsm. Types has the state (fsm.go: FSM, lock, waiter,
--     lease) and the messages of fsmpb/fsm.proto; Locks has locks.go (acquire, grant, release, promote,
--     cancelWait, proclaim), Leases has leases.go (leaseGrant, leaseKeepAlive, leaseRevoke,
--     leaseExpire, dropLease), Apply the switch of FSM.Apply, Queries the reads of FSM.Query, Snapshot
--     has Snapshot and Restore. WellFormed, Values, Tokens, Ownership,
--     Handover, Progress and Expiry are proofs.
--   GoMap: Go's map, an association list whose order stands for the unspecified order of iteration,
--     with sortedKeys of fsm.go.
--   Auth: internal/auth/keypath/keypath.go, and the policies of internal/auth/authz; Authz/File has the
--     files of rules and tokens, file.go and token.go. Authz/Loaded and Authz/Policy are proofs.
--   Meta: the topology store, internal/raft/meta/store.go.
--   Cmd: the builders of commands, internal/raft/cmd/cmd.go.
--   Consensus: the adapters of internal/raft/consensus (sm.go, sm_meta.go, resolver.go); Host has the
--     methods of host.go, Sweep its ExpireDue and RunExpiry, Settings its Config. Log, Swept and
--     Membership are proofs.
--   Forward: internal/raft/forward. Pool has pool.go, Dispatch dispatch.go, Serve server.go; the
--     Local interface of forward.go and internal/cluster/topology/topology.go stand in Forward itself.
--     Leader, over the host of Consensus, and Closing are proofs.
--   Router: internal/cluster/router/router.go.
--   Errors: errors/errors.go and errors/grpc.go. Crossing is a proof.
--   Session: internal/lock/session/session.go. Lapse, Committed and Closed are proofs, over the shards.
--   Watch: the hub of internal/lock/watch/watch.go, which hands the state machine's events to waiters.
--   Server: the handlers of internal/server/server.go and election.go; Stream has KeepAlive and
--     recoverSession, Observe has Leader and Observe, Browse has browse.go and observers.go, Cluster
--     has cluster.go. Backed, Granted, Confined and Joining are proofs.
--   Node: the authentication gate, internal/node/auth.go, with IdentityFromContext of
--     context/identity.go; Config has the settings of node.go and the gate that New builds,
--     Limiter the map of rate limiters. Guard and Identity are proofs.
--   Client: the library of client/. Options has the options of client.go and the dial options that New
--     makes of them, Header their interceptors, Session its keepalive loop, Mutex mutex.go, Election
--     election.go and master.go. Encrypted, Kept, Released and Published are proofs.
--   Examples: the theorems on concrete shards, requests and keys.
--
-- How the code is modelled. A method on a pointer takes the state and returns it with its result; what
-- it changes through a pointer into a map is written back under the name that the object carries. The
-- mutexes make every operation one step, so they are left out; a round of the session manager's
-- KeepAlive, which proposes without its mutex, is one step here too. uint64 and uint32 wrap; an int64 is its
-- two's-complement pattern below 2 ^ 64. A string is the list of its bytes, nil of a byte slice is
-- none. The notifier is the list of the events it was handed. A goroutine group runs in the order of a
-- map, which is any order.
--
-- Parameters: the generated marshallers (records of marshal and unmarshal, with the hypothesis that
-- they give back what was marshalled; of the snapshots, only those without an empty value, which
-- protobuf reads back as nil), the hashes of keys and tokens, the OIDC
-- verifier, the chain check of a certificate, the router, the proposer and the reader (functions on a state
-- of the world), and a reading of the clock. No definition runs on fuel: every loop is over a list, or
-- over a number of attempts that the source bounds.
--
-- What a caller's own gRPC dial option sets is a parameter of the client library, and gRPC takes the
-- last transport credentials that are set.
--
-- The NodeHost of the Raft library, gRPC connections and calls, and the backoff of the dispatcher are
-- parameters too. Where a theorem needs it, a hypothesis says what they do: a shard's reads are
-- answered by its state machine and its proposals committed there, a call is answered with what the
-- peer's service answers, and an attempt is made over only while its error is one that is retried.
--
-- Not modelled: dragonboat; the rest of node.go and host.go, which starts and stops it and the servers;
-- the node-wide rate limiter, of the client library Observe, Close and msi.go; TLS, telemetry and the
-- UI. The wait of a queued caller takes the events that its subscription delivers, up to the end of the
-- wait, as a list; a session stream takes its requests as a list, and a client's keepalive loop its
-- ticks.
mod Shared
pub mod GoMap
pub mod Errors
pub mod Forward
pub mod Fsm
pub mod Auth
pub mod Meta
pub mod Cmd
pub mod Consensus
pub mod Router
pub mod Session
pub mod Client
pub mod Server
pub mod Watch
pub mod Node
pub mod Examples
