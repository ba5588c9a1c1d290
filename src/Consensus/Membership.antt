-- ===== src/Consensus/Membership.antt =====
-- Changing the replicas of a shard: internal/raft/consensus/host.go over a Raft host whose changes show in
-- its membership.
use zuul.Shared.{
  ℕ, Bytes, Bool, true, false, Option, none, some, ◌≡◌, refl, arith, if-elim, nat_key,
}
use zuul.GoMap.{GoMap, has}
use zuul.Consensus.Host.{NodeHost, Host, HostError, add_replica_shard, add_unless, changed}

-- The replica is among the members that the Raft host reports.
abbrev pub is_member : Option (GoMap ℕ Bytes) → ℕ → Bool
is_member none id = false
is_member (some nodes) id = has nodes id

-- The Raft host reports a replica that it has reported as added.
abbrev pub AddShows : {World C R : Type 0} → NodeHost World C R → Type 0
AddShows {World} nh =
    (w v : World) (s id : ℕ) (addr : Bytes)
    → nh.sync_request_add_node w s id addr ≡ (v, true)
    → is_member (nh.sync_get_membership v s) id ≡ true

module _ {World C R : Type 0} (nh : NodeHost World C R) (h : Host) (shows : AddShows nh) (s id : ℕ)
    (addr : Bytes) where
  member-adds :
      (w : World)
      → is_member (nh.sync_get_membership w s) id ≡ true
      → add_replica_shard nh h w s id addr ≡ (w, none)
  unfolding add_replica_shard
  member-adds w m = found (nh.sync_get_membership w s) m
    where
      found :
          (o : Option (GoMap ℕ Bytes))
          → is_member o id ≡ true
          → add_unless nh h w s id addr o ≡ (w, none)
      found none k = ground (arith, k)
      found (some nodes) k = rw k refl

  Added : World → World × Option HostError → Type 0
  Added w out = out.1 ≡ none → is_member (nh.sync_get_membership out.0 s) id ≡ true

  changed-Added :
      (w : World) (p : World × Bool)
      → nh.sync_request_add_node w s id addr ≡ p
      → Added w (changed nh h p)
  unfolding Added
  changed-Added w (v, true) q e = shows w v s id addr q
  changed-Added w (v, false) q e = ground (arith, e)

  add_unless-Added :
      (w : World) (o : Option (GoMap ℕ Bytes))
      → nh.sync_get_membership w s ≡ o
      → Added w (add_unless nh h w s id addr o)
  unfolding Added
  add_unless-Added w none q = changed-Added w (nh.sync_request_add_node w s id addr) refl
  add_unless-Added w (some nodes) q =
      if-elim (Added w) (has nodes id) _ _ (λ k _. ground (arith, q, k))
        (λ _. changed-Added w (nh.sync_request_add_node w s id addr) refl)

  added-member :
      (w : World)
      → (add_replica_shard nh h w s id addr).1 ≡ none
      → is_member (nh.sync_get_membership (add_replica_shard nh h w s id addr).0 s) id ≡ true
  unfolding add_replica_shard Added
  added-member w e = add_unless-Added w (nh.sync_get_membership w s) refl e

  -- If the Raft host reports the replicas that it has added: once adding a replica to a shard has succeeded, the
  -- replica is a member, and adding it again, as a retry does, succeeds and changes nothing.
  pub add_replica_shard_again :
      (w : World)
      → (add_replica_shard nh h w s id addr).1 ≡ none
      → let v = (add_replica_shard nh h w s id addr).0 in
        (is_member (nh.sync_get_membership v s) id ≡ true)
        × (add_replica_shard nh h v s id addr ≡ (v, none))
  add_replica_shard_again w e =
      (added-member w e, member-adds (add_replica_shard nh h w s id addr).0 (added-member w e))

-- The Raft host drops no member when a replica is added, to that shard or to another.
abbrev pub AddKeeps : {World C R : Type 0} → NodeHost World C R → Type 0
AddKeeps {World} nh =
    (w : World) (s id : ℕ) (addr : Bytes) (j i : ℕ)
    → is_member (nh.sync_get_membership w j) i ≡ true
    → is_member (nh.sync_get_membership (nh.sync_request_add_node w s id addr).0 j) i ≡ true

pub add_replica_shard-keeps :
    {World C R : Type 0} (nh : NodeHost World C R) (h : Host) (keeps : AddKeeps nh) (w : World)
    (s id : ℕ) (addr : Bytes) (j i : ℕ)
    → is_member (nh.sync_get_membership w j) i ≡ true
    → is_member (nh.sync_get_membership (add_replica_shard nh h w s id addr).0 j) i ≡ true
unfolding add_replica_shard
add_replica_shard-keeps {World} nh h keeps w s id addr j i m =
    unless_keeps (nh.sync_get_membership w s)
  where
    Kept : World × Option HostError → Type 0
    Kept out = is_member (nh.sync_get_membership out.0 j) i ≡ true

    unless_keeps : (o : Option (GoMap ℕ Bytes)) → Kept (add_unless nh h w s id addr o)
    unless_keeps none = keeps w s id addr j i m
    unless_keeps (some nodes) =
        if-elim Kept (has nodes id) _ _ (λ _. m) (λ _. keeps w s id addr j i m)
