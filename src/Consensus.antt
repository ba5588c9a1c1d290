-- ===== src/Consensus.antt =====
-- The adapters between the replicated log and the two state machines:
-- internal/raft/consensus/sm.go and sm_meta.go, and the resolver of resolver.go. What the generated
-- marshallers make of a message is a parameter.
pub mod Meta
pub mod Log
pub mod Host
pub mod Sweep
pub mod Swept
pub mod Settings
pub mod Membership
use zuul.Shared.{ℕ, Bytes, Option, none, some, List, [], ◌∷◌, bytes_key}
use zuul.Fsm.Types.{
  Fsm, Command, CommandResult, ApplyError, Applied, ok, err, Outcome, unknown, granted, queued,
  not_acquired, released, not_holder, stale_token, no_lease, lease_granted, lease_renewed,
  lease_revoked, lease_expired, value_updated, not_found, noop,
}
use zuul.Fsm.Apply.{apply}
use zuul.Fsm.Snapshot.{Snapshot, snapshot, restore}

-- The numbers of the Outcome enum.
unfoldable pub outcome_code : Outcome → ℕ
outcome_code unknown = 0
outcome_code granted = 1
outcome_code queued = 2
outcome_code not_acquired = 3
outcome_code released = 4
outcome_code not_holder = 5
outcome_code stale_token = 6
outcome_code no_lease = 7
outcome_code lease_granted = 8
outcome_code lease_renewed = 9
outcome_code lease_revoked = 10
outcome_code lease_expired = 11
outcome_code value_updated = 12
outcome_code not_found = 13
outcome_code noop = 14

-- The generated marshallers of a message type, `W` being what is on the wire.
pub record Codec (M W : Type 0) : Type 0 where
  pub marshal : M → Option W
  pub unmarshal : W → Option M

-- sm.Entry, with its result's value and data once it has one.
pub record Entry (C R : Type 0) : Type 0 where
  pub index : ℕ
  pub cmd : C
  pub entry_result : Option (ℕ × R)

-- The errors of the adapters, with the index of the entry where there is one. All are fatal to the node.
pub data AdapterError : Type 0 where
  corrupt_command : ℕ → AdapterError
  apply_failed : ℕ → ApplyError → AdapterError
  marshal_result : ℕ → AdapterError
  marshal_snapshot : AdapterError
  unmarshal_snapshot : AdapterError
  meta_failed : ℕ → AdapterError

pub data Updated (C R : Type 0) : Type 0 where
  updated : List (Entry C R) → Updated C R
  update_failed : AdapterError → Updated C R

-- The entry that has been applied goes before those that the loop returns.
abbrev pub before : {C R : Type 0} → Entry C R → Updated C R → Updated C R
before e (updated es) = updated (e ∷ es)
before e (update_failed x) = update_failed x

module _ {C R : Type 0} (commands : Codec Command C) (results : Codec CommandResult R) where
  abbrev pub recorded : Entry C R → CommandResult → Option R → Option (Entry C R)
  recorded e r none = none
  recorded e r (some b) = some (record e { entry_result = some (outcome_code r.outcome, b) })

  abbrev pub finish :
      Entry C R → Fsm → (Fsm → Fsm × Updated C R) → Option (Entry C R) → Fsm × Updated C R
  finish e g rest none = (g, update_failed (marshal_result e.index))
  finish e g rest (some e') = let (h, es) = rest g in (h, before e' es)

  abbrev pub applied : Entry C R → (Fsm → Fsm × Updated C R) → Fsm × Applied → Fsm × Updated C R
  applied e rest (g, err x) = (g, update_failed (apply_failed e.index x))
  applied e rest (g, ok r) = finish e g rest (recorded e r (results.marshal r))

  -- The body of the loop, of which `rest` is the run from the next entry.
  abbrev pub decoded :
      Entry C R → Fsm → (Fsm → Fsm × Updated C R) → Option Command → Fsm × Updated C R
  decoded e f rest none = (f, update_failed (corrupt_command e.index))
  decoded e f rest (some c) = applied e rest (apply f (some c))

  -- The domain's rejections are results; only corruption stops the loop, where it stands.
  unfoldable pub update : Fsm → List (Entry C R) → Fsm × Updated C R
  unfolding apply
  update f [] = (f, updated [])
  update f (e ∷ es) = decoded e f (λ g. update g es) (commands.unmarshal e.cmd)

module _ {W : Type 0} (snapshots : Codec Snapshot W) where
  -- `PrepareSnapshot`, and what `SaveSnapshot` writes of it.
  unfoldable pub save_snapshot : Fsm → Option W
  unfolding snapshot
  save_snapshot f = snapshots.marshal (snapshot f)

  abbrev pub recovered : Fsm → Option Snapshot → Option Fsm
  recovered f none = none
  recovered f (some snap) = some (restore f snap)

  -- none where the source returns an error
  unfoldable pub recover_from_snapshot : Fsm → W → Option Fsm
  unfolding restore
  recover_from_snapshot f b = recovered f (snapshots.unmarshal b)
