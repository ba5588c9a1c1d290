-- ===== src/Session/Closed.antt =====
-- What closing a session leaves of the client's leases and locks: `Close` of
-- internal/lock/session/session.go over the state machines.
use zuul.Shared.{
  ℕ, Bytes, Bool, true, false, ◌&&◌, Option, none, some, List, [], ◌∷◌, ite, ◌≟◌, if◌then◌else◌,
  ◌≡◌, ◌≢◌, refl, sym, ap, ◌∙◌, subst, arith, bytes_key, nat_key, inc64, inl, inr, Option-cases,
  if_pos,
}
use zuul.GoMap.{get, has, keys, contains, contains-keys, get-delete}
use zuul.Fsm.Types.{Fsm, Command, CommandResult}
use zuul.Fsm.Apply.{apply, dispatch}
use zuul.Fsm.Leases.{revoke_found, drop_lease}
use zuul.Fsm.Leases
use zuul.Fsm.Expiry.{term, Wf-Named, drop_lease-term}
use zuul.Fsm.WellFormed.{Wf, is_holder}
use zuul.Fsm.WellFormed.Apply.{apply-Wf}
use zuul.Cmd.{revoke}
use zuul.Consensus.{Codec}
use zuul.Consensus.Log.{Lossless}
use zuul.Session.{Session, Manager, revoke_all, close_session}
use zuul.Session.Lapse.{committed, at}
use zuul.Session.Committed.{propose-ok, at-Wf}

revoked-term :
    (f : Fsm) (client c : Bytes)
    → Wf [] f
    → term (get (apply f (some (revoke client))).0.leases c)
      ≡ ite (client ≟ c) none (term (get f.leases c))
unfolding apply dispatch Leases.lease_revoke revoke_found
revoked-term f client c h = elim (Option-cases (get f.leases client)) [
  | inl e ↦ rw e (ground (arith, e))
  | inr (ls, e) ↦ rw e (
      ground (
        arith,
        e,
        Wf-Named f h client ls.client_id ls.expire_at (ap term e),
        drop_lease-term (record f { revision = inc64 f.revision }) ls c (Wf-Named f h),
      ))
]

module _ {C R : Type 0} (commands : Codec Command C) (results : Codec CommandResult R)
    (cb : Command → C) (rb : CommandResult → R) (lc : Lossless commands cb)
    (lr : Lossless results rb) (client : Bytes) where
  -- The client's leases in the shards of the list are gone, and the others are as they were.
  abbrev Revoked : List ℕ → (ℕ → Fsm) → (ℕ → Fsm) → Type 0
  Revoked ks w v =
      (j : ℕ)
      → Wf [] (v j)
        × ((c : Bytes)
            → term (get (v j).leases c) ≡ (
                if contains ks j
                then ite (client ≟ c) none (term (get (w j).leases c))
                else term (get (w j).leases c)))

  revoked_next :
      (w : ℕ → Fsm) (k : ℕ) (ks : List ℕ) (j : ℕ) (c : Bytes)
      → Wf [] (w k)
      → let v = at w k (apply (w k) (some (revoke client))).0 in
        (if contains ks j
          then ite (client ≟ c) none (term (get (v j).leases c))
          else term (get (v j).leases c))
        ≡ (if contains (k ∷ ks) j
            then ite (client ≟ c) none (term (get (w j).leases c))
            else term (get (w j).leases c))
  revoked_next w k ks j c h = elim (nat_key.dec k j) [
    | yes e ↦ subst Next e (
        ground (
          arith,
          ap (λ f. term (get f.leases c)) (if_pos (nat_key.dec k k) refl g (w k)),
          revoked-term (w k) client c h,
        ))
    | no n ↦ ground (arith, n)
  ]
    where
      g : Fsm
      g = (apply (w k) (some (revoke client))).0

      Next : ℕ → Type 0
      Next i =
          (if contains ks i
            then ite (client ≟ c) none (term (get (at w k g i).leases c))
            else term (get (at w k g i).leases c))
          ≡ (if contains (k ∷ ks) i
              then ite (client ≟ c) none (term (get (w i).leases c))
              else term (get (w i).leases c))

  revoke_all-next :
      (w : ℕ → Fsm) (k : ℕ) (ks : List ℕ)
      → revoke_all (committed commands results) commands results w client (k ∷ ks)
        ≡ revoke_all
            (committed commands results)
            commands
            results
            (at w k (apply (w k) (some (revoke client))).0)
            client
            ks
  unfolding revoke_all apply
  revoke_all-next w k ks =
      ap (λ p. revoke_all (committed commands results) commands results p.0 client ks)
        (propose-ok commands results cb rb lc lr w k (revoke client) _ refl)

  revoke_all-Revoked :
      (ks : List ℕ) (w : ℕ → Fsm)
      → ((j : ℕ) → Wf [] (w j))
      → Revoked ks w (revoke_all (committed commands results) commands results w client ks)
  unfolding revoke_all
  revoke_all-Revoked [] w h = λ j. (h j, λ c. refl)
  revoke_all-Revoked (k ∷ ks) w h =
      let g = (apply (w k) (some (revoke client))).0 in
      let rest =
        revoke_all-Revoked ks (at w k g)
          (λ j. at-Wf w k g j (h j) (apply-Wf (w k) (revoke client) tt (h k))) in
      subst (Revoked (k ∷ ks) w) (sym (revoke_all-next w k ks))
        (λ j. ((rest j).0, λ c. (rest j).1 c ∙ revoked_next w k ks j c (h k)))

  not_held :
      (b : Bool) (t : Option (Bytes × ℕ)) (g : Fsm)
      → client ≢ []
      → Wf [] g
      → term (get g.leases client) ≡ (if b then ite (client ≟ client) none t else t)
      → (n : Bytes) → (b && is_holder g client n) ≡ false
  not_held false t g ne h e n = refl
  not_held true t g ne h e n = elim (Option-cases (get g.leases client)) [
    | inl q ↦ ground (arith, q, h.held_index client n ne)
    | inr (ls, q) ↦ ground (arith, q, e)
  ]

  -- Over a proposer that reaches every shard, with lossless marshallers and every shard well formed: closing the
  -- session of a client with a name leaves the node without a session for it, and in every shard that
  -- the session lists the client has no lease and holds no key. Another client's leases
  -- keep their deadlines, and every shard is well formed still.
  pub close_session-releases :
      (w : ℕ → Fsm) (m : Manager) (s : Session)
      → ((j : ℕ) → Wf [] (w j))
      → client ≢ []
      → get m client ≡ some s
      → let out = close_session (committed commands results) commands results w m client in
        (get out.1 client ≡ none)
        × ((j : ℕ) → Wf [] (out.0 j))
        × ((j : ℕ) (c : Bytes)
            → term (get (out.0 j).leases c) ≡ (
                if has s.shards j
                then ite (client ≟ c) none (term (get (w j).leases c))
                else term (get (w j).leases c)))
        × ((j : ℕ) (n : Bytes) → (has s.shards j && is_holder (out.0 j) client n) ≡ false)
  unfolding close_session
  close_session-releases w m s h ne e =
      let all = revoke_all-Revoked (keys s.shards) w h in
      let left = λ (j : ℕ) (c : Bytes).
        (all j).1 c
        ∙ ap
            (λ b.
              if b
              then ite (client ≟ c) none (term (get (w j).leases c))
              else term (get (w j).leases c))
            (contains-keys s.shards j) in
      rw e (
        ground (arith, get-delete m client client),
        (λ j. (all j).0),
        left,
        (λ j n.
            not_held (has s.shards j) (term (get (w j).leases client)) _ ne (all j).0
              (left j client) n),
      )
