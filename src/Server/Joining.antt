-- ===== src/Server/Joining.antt =====
-- A node that has been added: AddNode of internal/server/cluster.go over a dispatcher that keeps its promises.
use zuul.Shared.{
  ℕ, Bytes, Bool, true, false, ◌&&◌, ◌||◌, ◌==◌, Option, none, some, List, [], ◌∷◌, ◌≡◌, refl, ◌∙◌,
  sym, subst, arith, All, if-elim,
}
use zuul.Auth.Authz.{Authorizer, authorize, admin}
use zuul.Meta.{MetaCommand}
use zuul.Consensus.{Codec}
use zuul.Consensus.Host.{NodeHost, Host, HostError, add_replica_shard, remove_replica_shard}
use zuul.Consensus.Membership.{
  AddShows, AddKeeps, is_member, add_replica_shard_again, add_replica_shard-keeps,
}
use zuul.Server.Browse.{cluster_key}
use zuul.Server.Cluster.{
  Changer, ChangerLaws, ClusterError, AddNodeRequest, may, add_all, add_node, put_in_meta, sent,
  recorded, when_all, is_empty,
}

and_left : (a b : Bool) → (a && b) ≡ true → a ≡ true
and_left a b e = ground (arith, e)

and_right : (a b : Bool) → (a && b) ≡ true → b ≡ true
and_right a b e = ground (arith, e)

module _ {World C R : Type 0} (c : Changer World) (laws : ChangerLaws c) (enabled : Bool)
    (metas : Codec MetaCommand C) (proposer : World → ℕ → C → World × Option R) (meta_shard : ℕ)
    (hosted : List ℕ)
    (quiet : (w : World) (s : ℕ) (b : C) (j i : ℕ)
      → c.is_replica (proposer w s b).0 j i ≡ c.is_replica w j i) where
  abbrev Everywhere : World → ℕ → List ℕ → Type 0
  Everywhere w id ss = All (λ s. c.is_replica w s id ≡ true) ss

  add_all-keeps :
      (ss : List ℕ) (w : World) (id : ℕ) (addr : Bytes) (j i : ℕ)
      → c.is_replica w j i ≡ true
      → c.is_replica (add_all c enabled metas proposer meta_shard hosted w id addr ss).0 j i ≡ true
  unfolding add_all
  add_all-keeps [] w id addr j i h = h
  add_all-keeps (s ∷ ss) w id addr j i h =
      add_all-keeps ss (c.add_replica w s id addr).0 id addr j i (laws.add_keeps w s id addr j i h)

  add_all-Everywhere :
      (ss : List ℕ) (w : World) (id : ℕ) (addr : Bytes)
      → (add_all c enabled metas proposer meta_shard hosted w id addr ss).1 ≡ true
      → Everywhere (add_all c enabled metas proposer meta_shard hosted w id addr ss).0 id ss
  unfolding add_all
  add_all-Everywhere [] w id addr e = tt
  add_all-Everywhere (s ∷ ss) w id addr e =
      let v = (c.add_replica w s id addr).0 in
      (
        add_all-keeps ss v id addr s id (laws.add_made w s id addr (and_left _ _ e)),
        add_all-Everywhere ss v id addr (and_right _ _ e),
      )

  -- What an answer without an error shows.
  Joined : Authorizer → Bytes → ℕ → World × Option ClusterError → Type 0
  Joined policy identity id out =
      out.1 ≡ none
      → (authorize policy identity cluster_key admin ≡ true) × Everywhere out.0 id hosted

  recorded-keeps :
      (w : World) (p : World × Option R) (id : ℕ) (ss : List ℕ)
      → ((j i : ℕ) → c.is_replica p.0 j i ≡ c.is_replica w j i)
      → Everywhere w id ss
      → Everywhere (recorded c enabled metas proposer meta_shard hosted p).0 id ss
  recorded-keeps w (v, o) id [] k h = tt
  recorded-keeps w (v, none) id (s ∷ ss) k h =
      (k s id ∙ h.0, recorded-keeps w (v, none) id ss k h.1)
  recorded-keeps w (v, some r) id (s ∷ ss) k h =
      (k s id ∙ h.0, recorded-keeps w (v, some r) id ss k h.1)

  sent-keeps :
      (w : World) (o : Option C) (id : ℕ)
      → Everywhere w id hosted
      → Everywhere (sent c enabled metas proposer meta_shard hosted w o).0 id hosted
  sent-keeps w none id h = h
  sent-keeps w (some b) id h =
      recorded-keeps w (proposer w meta_shard b) id hosted (λ j i. quiet w meta_shard b j i) h

  when_all-Joined :
      (policy : Authorizer) (identity : Bytes) (r : AddNodeRequest) (p : World × Bool)
      → authorize policy identity cluster_key admin ≡ true
      → (p.1 ≡ true → Everywhere p.0 r.replica_id hosted)
      → Joined policy identity r.replica_id (
          when_all c enabled metas proposer meta_shard hosted
            (λ v. put_in_meta c enabled metas proposer meta_shard hosted v r)
            p)
  unfolding Joined put_in_meta
  when_all-Joined policy identity r (w, false) a h = λ e. ground (arith, e)
  when_all-Joined policy identity r (w, true) a h = λ e. (a, sent-keeps w _ r.replica_id (h refl))

  -- Over a dispatcher of which a change that it reports is made and no change undoes another, and a proposer
  -- that changes no membership: if AddNode answers without an error, the caller has the Admin
  -- right on the cluster's key, and the node is a replica of every hosted shard.
  pub add_node-everywhere :
      (policy : Authorizer) (identity : Bytes) (w : World) (r : AddNodeRequest)
      → let out = add_node c enabled metas proposer meta_shard hosted policy identity w r in
        out.1 ≡ none
        → (authorize policy identity cluster_key admin ≡ true)
          × All (λ s. c.is_replica out.0 s r.replica_id ≡ true) hosted
  unfolding add_node may Joined
  add_node-everywhere policy identity w r =
      if-elim (Joined policy identity r.replica_id) (authorize policy identity cluster_key admin) _
        _
        (λ a.
          if-elim (Joined policy identity r.replica_id) enabled _ _
            (λ _.
              if-elim (Joined policy identity r.replica_id)
                (r.replica_id == 0 || is_empty r.raft_address) _ _ (λ _ e. ground (arith, e))
                (λ _.
                  when_all-Joined policy identity r _ a
                    (add_all-Everywhere hosted w r.replica_id r.raft_address)))
            (λ _ e. ground (arith, e)))
        (λ _ e. ground (arith, e))

abbrev succeeded : {World : Type 0} → World × Option HostError → World × Bool
succeeded (w, none) = (w, true)
succeeded (w, some x) = (w, false)

-- The Raft host of a shard's leader, which the dispatcher's change comes to.
abbrev pub host_changer : {World C R : Type 0} → NodeHost World C R → Host → Changer World
host_changer nh h = record {
  add_replica = λ w s id addr. succeeded (add_replica_shard nh h w s id addr);
  remove_replica = λ w s id. succeeded (remove_replica_shard nh h w s id);
  is_replica = λ w s id. is_member (nh.sync_get_membership w s) id;
}

succeeded-none :
    {World : Type 0} (p : World × Option HostError) → (succeeded p).1 ≡ true → p.1 ≡ none
succeeded-none (w, none) e = refl
succeeded-none (w, some x) e = ground (arith, e)

succeeded-world : {World : Type 0} (p : World × Option HostError) → (succeeded p).0 ≡ p.0
succeeded-world (w, none) = refl
succeeded-world (w, some x) = refl

pub host_changer-ChangerLaws :
    {World C R : Type 0} (nh : NodeHost World C R) (h : Host)
    → AddShows nh
    → AddKeeps nh
    → ChangerLaws (host_changer nh h)
host_changer-ChangerLaws nh h shows keeps = record {
  add_made = λ w s id addr e.
      subst (λ v. is_member (nh.sync_get_membership v s) id ≡ true)
        (sym (succeeded-world (add_replica_shard nh h w s id addr)))
        (add_replica_shard_again nh h shows s id addr w
          (succeeded-none (add_replica_shard nh h w s id addr) e)).0;
  add_keeps = λ w s id addr j i m.
      subst (λ v. is_member (nh.sync_get_membership v j) i ≡ true)
        (sym (succeeded-world (add_replica_shard nh h w s id addr)))
        (add_replica_shard-keeps nh h keeps w s id addr j i m);
}
