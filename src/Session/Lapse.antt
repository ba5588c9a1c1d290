-- ===== src/Session/Lapse.antt =====
-- The sessions and the leases of the shards: what a round of keepalives leaves of a session.
use zuul.Shared.{
  ℕ, Bytes, Bool, false, not, ◌&&◌, Option, none, some, List, [], ◌∷◌, ite, if◌then◌else◌,
  bytes_key, nat_key, ◌≡◌, refl, sym, ap, ◌∙◌, subst, arith, inl, inr, inc64, ite-elim, ◌≟◌, if_pos,
  if_neg, is_some, Option-cases,
}
use zuul.GoMap.{get, has, put, delete, keys, contains, contains-keys, get-put, get-delete}
use zuul.Fsm.Types.{
  Fsm, Command, CommandResult, Outcome-discrete, not_found, lease_renewed, Applied, ok, err, result,
}
use zuul.Fsm.Apply.{apply, dispatch}
use zuul.Fsm.Leases.{lease_keep_alive, keep_alive_found, lease_deadline}
use zuul.Cmd.{keep_alive}
use zuul.Consensus.{Codec}
use zuul.Consensus.Log.{Lossless}
use zuul.Session.{
  Session, Manager, SessionError, got, lapsed, propose, renew, keep_session, kept, replied,
}

-- The client has a lease in the shard.
abbrev pub leased : (ℕ → Fsm) → Bytes → ℕ → Bool
leased w client shard = has (w shard).leases client

-- The session lists the shard.
abbrev pub lists : Option Session → ℕ → Bool
lists none j = false
lists (some s) j = has s.shards j

-- One shard's state is replaced.
abbrev pub at : (ℕ → Fsm) → ℕ → Fsm → ℕ → Fsm
at w shard f j = ite (nat_key.dec shard j) f (w j)

module _ {C R : Type 0} (commands : Codec Command C) (results : Codec CommandResult R) where
  abbrev applied : (ℕ → Fsm) → ℕ → Fsm × Applied → (ℕ → Fsm) × Option R
  applied w shard (f, err x) = (at w shard f, none)
  applied w shard (f, ok r) = (at w shard f, results.marshal r)

  abbrev decoded : (ℕ → Fsm) → ℕ → Option Command → (ℕ → Fsm) × Option R
  decoded w shard none = (w, none)
  decoded w shard (some c) = applied w shard (apply (w shard) (some c))

  -- A proposer that reaches every shard: the command is decoded and applied at its shard.
  abbrev pub committed : (ℕ → Fsm) → ℕ → C → (ℕ → Fsm) × Option R
  committed w shard b = decoded w shard (commands.unmarshal b)

  module _ (cb : Command → C) (rb : CommandResult → R) (lc : Lossless commands cb)
      (lr : Lossless results rb) (client : Bytes) (now : ℕ) where
    replied-ok :
        (w : ℕ → Fsm) (r : CommandResult)
        → replied committed commands results (w, results.marshal r) ≡ (w, got r)
    replied-ok w r = rw (lr r).0 (rw (lr r).1 refl)

    renewal : Fsm → Fsm × CommandResult
    unfolding lease_keep_alive
    renewal f = lease_keep_alive (record f { revision = inc64 f.revision }) client now

    propose-renewal :
        (w : ℕ → Fsm) (shard : ℕ)
        → propose (committed) commands results w shard (keep_alive client now)
          ≡ (at w shard (renewal (w shard)).0, got (renewal (w shard)).1)
    unfolding propose apply dispatch renewal
    propose-renewal w shard =
        rw (lc (keep_alive client now)).0 (rw (lc (keep_alive client now)).1 (replied-ok _ _))

    renewal-leased : (f : Fsm) → has (renewal f).0.leases client ≡ has f.leases client
    unfolding renewal lease_keep_alive keep_alive_found
    renewal-leased f = elim (Option-cases (get f.leases client)) [
      | inl e ↦ rw e (ap is_some e)
      | inr (ls, e) ↦ rw e (
          ground (
            arith,
            e,
            get-put f.leases ls.client_id (record ls { expire_at = lease_deadline now ls.ttl_ms })
                client,
          ))
    ]

    renewal-lapsed :
        (f : Fsm) (shard : ℕ) (s : Session)
        → lapsed shard (got (renewal f).1) s
          ≡ (if has f.leases client then s else record s { shards = delete s.shards shard })
    unfolding renewal lease_keep_alive keep_alive_found lapsed result
    renewal-lapsed f shard s = elim (Option-cases (get f.leases client)) [
      | inl e ↦ rw e (if_pos (Outcome-discrete not_found not_found) refl _ _)
      | inr (ls, e) ↦
          rw e (if_neg (Outcome-discrete lease_renewed not_found) (λ q. ground (arith, q)) _ _)
    ]

    at-leased :
        (w : ℕ → Fsm) (shard j : ℕ)
        → leased (at w shard (renewal (w shard)).0) client j ≡ leased w client j
    at-leased w shard j =
        ite-elim {A = Fsm} (λ f. has f.leases client ≡ leased w client j) (nat_key.dec shard j) _ _
          (λ e.
            subst (λ k. has (renewal (w shard)).0.leases client ≡ leased w client k) e
              (renewal-leased (w shard)))
          (λ _. refl)

    drop_one :
        (w : ℕ → Fsm) (s : Session) (k : ℕ) (ks : List ℕ) (j : ℕ)
        → (if contains ks j && not (leased w client j)
            then none
            else get
                (if has (w k).leases client
                  then s
                  else record s { shards = delete s.shards k }).shards
                j)
          ≡ (if contains (k ∷ ks) j && not (leased w client j) then none else get s.shards j)
    drop_one w s k ks j = elim (nat_key.dec k j) [
      | yes e ↦
          subst
            (λ i.
              (if contains ks j && not (leased w client j)
                then none
                else get
                    (if has (w i).leases client
                      then s
                      else record s { shards = delete s.shards k }).shards
                    j)
              ≡ (if contains (k ∷ ks) j && not (leased w client j) then none else get s.shards j))
            (sym e) (ground (arith, e, get-delete s.shards k j))
      | no ne ↦ ground (arith, ne, get-delete s.shards k j)
    ]

    renew-shards :
        (ks : List ℕ) (w : ℕ → Fsm) (s : Session) (j : ℕ)
        → get (renew committed commands results w now client s ks).1.shards j
          ≡ (if contains ks j && not (leased w client j) then none else get s.shards j)
    unfolding renew
    renew-shards [] w s j = refl
    renew-shards (k ∷ ks) w s j = rw (propose-renewal w k) (
        rw (renewal-lapsed (w k) k s) (
          renew-shards ks (at w k (renewal (w k)).0)
            (if has (w k).leases client then s else record s { shards = delete s.shards k }) j
          ∙ rw (at-leased w k j) (drop_one w s k ks j)))

    renew-error :
        (ks : List ℕ) (w : ℕ → Fsm) (s : Session)
        → (renew committed commands results w now client s ks).2 ≡ none
    unfolding renew
    renew-error [] w s = refl
    renew-error (k ∷ ks) w s =
        rw (propose-renewal w k)
          (renew-error ks (at w k (renewal (w k)).0) (lapsed k (got (renewal (w k)).1) s))

    keep_session-state :
        (w : ℕ → Fsm) (m : Manager) (s : Session)
        → get m client ≡ some s
        → keep_session committed commands results w now m client ≡ (
          (renew committed commands results w now client s (keys s.shards)).0,
          put m client (renew committed commands results w now client s (keys s.shards)).1,
          inr (lease_deadline now s.ttl_ms),
        )
    unfolding keep_session lease_deadline
    keep_session-state w m s e = rw e (kept_none _ (renew-error (keys s.shards) w s))
      where
        kept_none :
            (p : (ℕ → Fsm) × Session × Option SessionError)
            → p.2 ≡ none
            → kept committed commands results now m client s.ttl_ms p
              ≡ (p.0, put m client p.1, inr (lease_deadline now s.ttl_ms))
        kept_none (w', s', o) q = rw q refl

    -- With a proposer that reaches every shard and lossless marshallers: after a round of keepalives for a
    -- client with an open session, the client's session lists exactly those of its
    -- shards in which the client had a lease, the other sessions are as they were, and the answer is the
    -- deadline that a lease of the session's TTL renewed at `now` has.
    pub keep_session-lapsed :
        (w : ℕ → Fsm) (m : Manager) (s : Session)
        → get m client ≡ some s
        → let out = keep_session committed commands results w now m client in
          ((d : Bytes) (j : ℕ)
            → lists (get out.1 d) j
              ≡ ite (d ≟ client) (lists (get m d) j && leased w client j) (lists (get m d) j))
          × (out.2 ≡ inr (lease_deadline now s.ttl_ms))
    keep_session-lapsed w m s e = rw (keep_session-state w m s e) (
      (λ d j. ground (
        arith,
        e,
        get-put m client (renew committed commands results w now client s (keys s.shards)).1 d,
        renew-shards (keys s.shards) w s j,
        contains-keys s.shards j,
      )),
      refl,
    )
