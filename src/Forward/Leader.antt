-- ===== src/Forward/Leader.antt =====
-- A dispatched write is committed by a leader: the dispatcher and the Forwarder service of
-- internal/raft/forward over the Raft host of internal/raft/consensus/host.go.
use zuul.Shared.{
  ℕ, Bytes, Bool, true, false, not, Option, none, some, ◌⊎◌, inl, inr, if◌then◌else◌, ◌≡◌, refl,
  arith, subst, Option-cases, Bool-cases,
}
use zuul.Consensus.Host
use zuul.Consensus.Host.{NodeHost, Host, HostError}
use zuul.Forward.{Local}
use zuul.Forward.Pool.{Pool, client}
use zuul.Forward.Dispatch.{
  Attempt, finished, transient, permanent, Route, here, peer, unsettled, CallError, Retry, route,
  propose_once, propose, sent, classify, reached, called, ran_here,
}
use zuul.Forward.Serve
use zuul.Forward.Serve.{not_leader}

-- The Raft host as the dispatcher's local node.
abbrev replied : {World A : Type 0} → World × (HostError ⊎ A) → World × Option A
replied (w, inl x) = (w, none)
replied (w, inr r) = (w, some r)

abbrev no_error : {World : Type 0} → World × Option HostError → World × Bool
no_error (w, none) = (w, true)
no_error (w, some x) = (w, false)

abbrev pub host_local : {World C R : Type 0} → NodeHost World C R → Host → Local World C R
host_local nh h = record {
  replica_id = h.replica_id;
  is_leader = Host.is_leader nh h;
  leader_id = Host.leader_id nh h;
  propose = λ w shard c. replied (Host.propose nh h w shard c);
  add_replica_shard = λ w shard id addr. no_error (Host.add_replica_shard nh h w shard id addr);
  remove_replica_shard = λ w shard id. no_error (Host.remove_replica_shard nh h w shard id);
}

-- A run of the attempt, made over as long as it fails with an error that is retried.
pub data Attempts {S A : Type 0} (op : S → S × Attempt A) : S → S → Attempt A → Type 0 where
  last : (s : S) → Attempts op s (op s).0 (op s).1
  again :
      (s u : S) (a : Attempt A)
      → (op s).1 ≡ transient
      → Attempts op (op s).0 u a
      → Attempts op s u a

-- What holds of the last attempt's result holds of the run's.
Attempts-last :
    {S A : Type 0} {op : S → S × Attempt A} {P : A → Type 0} {s u : S} {a : Attempt A}
    → ((t : S) (r : A) → (op t).1 ≡ finished r → P r)
    → Attempts op s u a
    → (r : A) → a ≡ finished r
    → P r
Attempts-last h (last s) r e = h s r e
Attempts-last h (again s u a t rest) r e = Attempts-last h rest r e

module _ {W C R Conn : Type 0} (nh : NodeHost W C R) (h : Host) (addr_of : W → ℕ → Option Bytes)
    (dial : Bytes → Option Conn) where
  abbrev local : Local W C R
  local = host_local nh h

  route-here : (w : W) (s : ℕ) → route local addr_of dial w s ≡ here → local.is_leader w s ≡ true
  unfolding route Host.is_leader Host.leader_id
  route-here w s e = elim (Option-cases (nh.get_leader_id w s)) [
    | inl q ↦ ground (arith, q, e)
    | inr (none, q) ↦ ground (arith, q, e)
    | inr (some j, q) ↦ ground (arith, q, e)
  ]

  -- The node at the other end of a connection, none for this node itself.
  abbrev place : (Conn → Local W C R) → Option Conn → Local W C R
  place node none = local
  place node (some cc) = node cc

  -- A node that led the shard when the command came to it, and whose Raft host answered it with `r`.
  abbrev pub Committed : (Conn → Local W C R) → ℕ → C → R → Type 0
  Committed node s c r =
      (at : Option Conn) × (w : W) × ((place node at).is_leader w s ≡ true)
      × (((place node at).propose w s c).1 ≡ some r)

  serve-Committed :
      (node : Conn → Local W C R) (cc : Conn) (w : W) (s : ℕ) (c : C) (r : R)
      → (Serve.propose (node cc) w s c).1 ≡ inr r
      → Committed node s c r
  unfolding Serve.propose
  serve-Committed node cc w s c r e = elim (Bool-cases ((node cc).is_leader w s)) [
    | inr q ↦ ground (arith, q, e)
    | inl q ↦ (
      some cc,
      w,
      q,
      answered_result ((node cc).propose w s c) (
          subst
            (λ b.
              (if not b
                then (w, inl not_leader)
                else Serve.answered (node cc) ((node cc).propose w s c)).1
              ≡ inr r)
            q e),
    )
  ]
    where
      answered_result : (p : W × Option R) → (Serve.answered (node cc) p).1 ≡ inr r → p.1 ≡ some r
      answered_result (v, none) k = ground (arith, k)
      answered_result (v, some x) k = ground (arith, k)

  module _ (node : Conn → Local W C R) (call : W → Conn → ℕ → C → W × (CallError ⊎ R))
      (answers : (w : W) (cc : Conn) (s : ℕ) (c : C) (r : R)
        → (call w cc s c).1 ≡ inr r
        → (v : W) × ((Serve.propose (node cc) v s c).1 ≡ inr r)) where
    reached-Committed :
        (w : W) (s : ℕ) (c : C) (addr : Bytes) (p : Pool Conn × Option Conn) (r : R)
        → (reached local addr_of dial w (λ cc. call w cc s c) addr p).1 ≡ finished r
        → Committed node s c r
    reached-Committed w s c addr (p, none) r e = ground (arith, e)
    reached-Committed w s c addr (p, some cc) r e =
        let (v, k) = answers w cc s c r (called_result (call w cc s c) e) in
        serve-Committed node cc v s c r k
      where
        called_result :
            (q : W × (CallError ⊎ R))
            → (called local addr_of dial p addr q).1 ≡ finished r
            → q.1 ≡ inr r
        called_result (v, inl x) k = ground (arith, k)
        called_result (v, inr x) k = ground (arith, k)

    sent-Committed :
        (w : W) (p : Pool Conn) (s : ℕ) (c : C) (way : Route) (r : R)
        → route local addr_of dial w s ≡ way
        → (sent local addr_of dial w p (local.propose w s c) (λ cc. call w cc s c) way).1
          ≡ finished r
        → Committed node s c r
    sent-Committed w p s c here r e k =
        (none, w, route-here w s e, own_result (local.propose w s c) k)
      where
        own_result :
            (q : W × Option R) → (ran_here local addr_of dial p q).1 ≡ finished r → q.1 ≡ some r
        own_result (v, none) m = ground (arith, m)
        own_result (v, some x) m = ground (arith, m)
    sent-Committed w p s c (peer addr) r e k = reached-Committed w s c addr (client dial p addr) r k
    sent-Committed w p s c unsettled r e k = ground (arith, k)

    -- Over the Raft host, and over peers that answer a call with what their Forwarder service answers: if the
    -- backoff makes the attempt over and over as long as its error is one that is retried, a proposal that
    -- the dispatcher reports as committed with a result was answered with that result by the Raft host of
    -- a node, this one or a peer, that led the shard when the command came to it.
    pub propose-Committed :
        (retry : Retry local addr_of dial R) (st : W × Pool Conn) (s : ℕ) (c : C) (r : R)
        → ((op : W × Pool Conn → (W × Pool Conn) × Attempt R) (t : W × Pool Conn)
            → Attempts op t (retry op t).0 (retry op t).1)
        → (propose local addr_of dial retry call st s c).1 ≡ inr r
        → Committed node s c r
    unfolding propose propose_once classify
    propose-Committed retry st s c r retries e =
        Attempts-last
          (λ t x k. sent-Committed t.0 t.1 s c (route local addr_of dial t.0 s) x refl k)
          (retries (propose_once local addr_of dial call s c) st) r (classified _ e)
      where
        classified : (a : Attempt R) → classify a ≡ inr r → a ≡ finished r
        classified (finished x) k = ground (arith, k)
        classified transient k = ground (arith, k)
        classified permanent k = ground (arith, k)
