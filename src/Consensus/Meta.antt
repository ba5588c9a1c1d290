-- ===== src/Consensus/Meta.antt =====
-- The meta shard's adapter: internal/raft/consensus/sm_meta.go, and the resolver of resolver.go.
use zuul.Shared.{ℕ, Bytes, Option, none, some, List, [], ◌∷◌, ite, ◌≟◌, bytes_key, nat_key}
use zuul.GoMap.{GoMap, get}
use zuul.Meta
use zuul.Meta.{Store, Member, MetaCommand, command, MetaResult, at_revision, failed, MetaSnapshot}
use zuul.Consensus.{
  Codec, Entry, Updated, updated, update_failed, before, marshal_result, corrupt_command,
  meta_failed,
}

module _ {C R : Type 0} (commands : Codec MetaCommand C) (results : Codec ℕ R) where
  abbrev pub meta_recorded : Entry C R → ℕ → Option R → Option (Entry C R)
  meta_recorded e revision none = none
  meta_recorded e revision (some b) = some (record e { entry_result = some (revision, b) })

  abbrev pub meta_finish :
      Entry C R → Store → (Store → Store × Updated C R) → Option (Entry C R) → Store × Updated C R
  meta_finish e g rest none = (g, update_failed (marshal_result e.index))
  meta_finish e g rest (some e') = let (h, es) = rest g in (h, before e' es)

  abbrev pub meta_applied :
      Entry C R → (Store → Store × Updated C R) → Store × MetaResult → Store × Updated C R
  meta_applied e rest (g, failed x) = (g, update_failed (meta_failed e.index))
  meta_applied e rest (g, at_revision r) =
      meta_finish e g rest (meta_recorded e r (results.marshal r))

  -- The body of the loop, of which `rest` is the run from the next entry.
  abbrev pub meta_decoded :
      Entry C R → Store → (Store → Store × Updated C R) → Option MetaCommand → Store × Updated C R
  meta_decoded e s rest none = (s, update_failed (corrupt_command e.index))
  meta_decoded e s rest (some c) = meta_applied e rest (Meta.apply s (command c))

  -- `Update`: a result is its revision, as a value and marshalled.
  unfoldable pub meta_update : Store → List (Entry C R) → Store × Updated C R
  meta_update s [] = (s, updated [])
  meta_update s (e ∷ es) = meta_decoded e s (λ g. meta_update g es) (commands.unmarshal e.cmd)

module _ {W : Type 0} (snapshots : Codec MetaSnapshot W) where
  unfoldable pub meta_save_snapshot : Store → Option W
  meta_save_snapshot s = snapshots.marshal (Meta.snapshot s)

  abbrev pub meta_recovered : Store → Option MetaSnapshot → Option Store
  meta_recovered s none = none
  meta_recovered s (some snap) = some (Meta.restore s snap)

  -- none where the source returns an error
  unfoldable pub meta_recover : Store → W → Option Store
  meta_recover s b = meta_recovered s (snapshots.unmarshal b)

-- The address that the meta shard has for the member, or else the seed's.
unfoldable pub resolved : Option Member → Option Bytes → Option Bytes
resolved none seed = seed
resolved (some m) seed = ite (m.zuul_grpc_address ≟ []) seed (some m.zuul_grpc_address)

-- `Addr`, of which `member` is the host's read of the meta shard.
unfoldable pub addr : (ℕ → Option Member) → GoMap ℕ Bytes → ℕ → Option Bytes
unfolding resolved
addr member seed id = resolved (member id) (get seed id)

-- A member that put itself into the meta shard with an address is found there, whatever the seed says,
-- until a later command on it.
