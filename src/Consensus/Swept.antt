-- ===== src/Consensus/Swept.antt =====
-- What the expiry sweep of internal/raft/consensus/host.go leaves of the leases, over a Raft host whose
-- reads are linearizable and whose proposals are committed.
use zuul.Shared.{
  ℕ, Bytes, Bool, true, ◌&&◌, Option, none, some, List, [], ◌∷◌, if◌then◌else◌, ite, ◌≢◌, bytes_key,
  nat_key, ◌≡◌, refl, sym, ap, ◌∙◌, subst, arith, inc64, ◌≟◌, if_pos, if_neg, is_some, signed_ltb,
  ◌⊎◌, inl, inr,
}
use zuul.GoMap.{get, has, contains, sorted_keys}
use zuul.GoMap.Sorted.{contains-sorted_keys}
use zuul.Fsm.Types.{Fsm, Lock, Lease, Command}
use zuul.Fsm.Apply.{apply, dispatch}
use zuul.Fsm.Queries.{query, Query, Answer, due_leases_query, due_leases, due_among, is_due}
use zuul.Fsm.Expiry.{term, Named, live, lease_expire-term, live_next, Wf-Named}
use zuul.Fsm.WellFormed.{Wf, lock-Ok}
use zuul.Fsm.WellFormed.Apply.{apply-Wf}
use zuul.Cmd.{expire}
use zuul.Consensus.{Codec}
use zuul.Consensus.Log.{Lossless, HasField}
use zuul.Consensus.Host.{
  NodeHost, Host, HostError, consensus, AnyAnswer, lock_answer, lock_query, proposed, propose, read,
}
use zuul.Consensus.Sweep.{expire_all, expire_due, expire_read}
use zuul.Session.Lapse.{at}

contains-due_among :
    (f : Fsm) (now : ℕ) (cs : List Bytes) (c : Bytes)
    → contains (due_among f now cs) c ≡ (contains cs c && is_due now (get f.leases c))
unfolding due_among
contains-due_among f now [] c = refl
contains-due_among f now (d ∷ cs) c = ground (arith, contains-due_among f now cs c)

has-is_due : (now : ℕ) (o : Option Lease) → (is_some o && is_due now o) ≡ is_due now o
unfolding is_due
has-is_due now none = refl
has-is_due now (some ls) = refl

contains-due_leases :
    (f : Fsm) (now : ℕ) (c : Bytes) → contains (due_leases f now) c ≡ is_due now (get f.leases c)
unfolding due_leases
contains-due_leases f now c =
    contains-due_among f now (sorted_keys f.leases) c
    ∙ ap (λ b. b && is_due now (get f.leases c)) (contains-sorted_keys f.leases c)
    ∙ has-is_due now (get f.leases c)

abbrev pub answer_of : Option Answer → Option AnyAnswer
answer_of none = none
answer_of (some a) = some (lock_answer a)

due-live :
    (now : ℕ) (o : Option Lease) (b : Bool)
    → b ≡ is_due now o
    → (if b then live now (term o) else term o) ≡ (if is_due now o then none else term o)
unfolding is_due
due-live now none b e = ground (arith, e)
due-live now (some ls) b e = ground (arith, e)

-- What a Raft host does for a shard that the node hosts: it reads the shard's state machine, and commits and
-- applies a command there and nowhere else.
pub record Serves {C R : Type 0} (nh : NodeHost (ℕ → Fsm) C R) (cb : Command → C) (s : ℕ)
    : Type 0 where
  pub reads :
      (w : ℕ → Fsm) (q : Query) → nh.sync_read w s (lock_query q) ≡ answer_of (query (w s) q)
  pub commits :
      (w : ℕ → Fsm) (c : Command)
      → HasField c
      → ((nh.sync_propose w s (cb c)).0 ≡ at w s (apply (w s) (some c)).0)
        × (is_some (nh.sync_propose w s (cb c)).1 ≡ true)

proposed-inr :
    {C R : Type 0} (nh : NodeHost (ℕ → Fsm) C R) (h : Host) (v : ℕ → Fsm) (p : (ℕ → Fsm) × Option R)
    → p.0 ≡ v
    → is_some p.1 ≡ true
    → (r : R) × (proposed nh h p ≡ (v, inr r))
proposed-inr nh h v (u, none) e k = ground (arith, k)
proposed-inr nh h v (u, some r) e k = (r, ap (λ x. (x, inr r)) e)

holder-leased :
    (g : Fsm) (name : Bytes) (lk : Lock)
    → Wf [] g
    → get g.locks name ≡ some lk
    → has g.leases lk.holder ≡ true
holder-leased g name lk h e = ground (arith, e, h.held_index lk.holder name (lock-Ok h e).1)

module _ {C R : Type 0} (nh : NodeHost (ℕ → Fsm) C R) (h : Host) (commands : Codec Command C)
    (cb : Command → C) (lc : Lossless commands cb) (s : ℕ) (serves : Serves nh cb s)
    (hosts : has h.sessions s ≡ true) where
  propose-commits :
      (w : ℕ → Fsm) (c : Command)
      → HasField c
      → (r : R) × (propose nh h w s (cb c) ≡ (at w s (apply (w s) (some c)).0, inr r))
  unfolding propose
  propose-commits w c f =
      let done = serves.commits w c f in
      rw hosts (
        proposed-inr nh h (at w s (apply (w s) (some c)).0) (nh.sync_propose w s (cb c)) done.0
          done.1)

  -- The leases of the shard after the due ones among `cs` have been expired; no other shard changed.
  abbrev Expired : ℕ → List Bytes → (ℕ → Fsm) → (ℕ → Fsm) → Type 0
  Expired now cs w v =
      ((c : Bytes)
        → term (get (v s).leases c) ≡ (
            if contains cs c
            then live now (term (get (w s).leases c))
            else term (get (w s).leases c)))
      × ((j : ℕ) → s ≢ j → v j ≡ w j)
      × Wf [] (v s)

  expire_one-term :
      (f : Fsm) (client : Bytes) (now : ℕ) (c : Bytes)
      → Named f
      → term (get (apply f (some (expire client now))).0.leases c)
        ≡ ite (client ≟ c) (live now (term (get f.leases c))) (term (get f.leases c))
  unfolding apply dispatch
  expire_one-term f client now c n =
      lease_expire-term (record f { revision = inc64 f.revision }) client now c n

  expire_all-Expired :
      (now : ℕ) (cs : List Bytes) (w : ℕ → Fsm)
      → Wf [] (w s)
      → Expired now cs w (expire_all nh commands h w s now cs).0
        × ((expire_all nh commands h w s now cs).1 ≡ none)
  unfolding expire_all
  expire_all-Expired now [] w n = (((λ c. refl), (λ j k. refl), n), refl)
  expire_all-Expired now (client ∷ cs) w n =
      let one = propose-commits w (expire client now) tt in
      let g = (apply (w s) (some (expire client now))).0 in
      let here : at w s g s ≡ g = if_pos (nat_key.dec s s) refl _ _ in
      let rest =
        expire_all-Expired now cs (at w s g)
          (subst (Wf []) (sym here) (apply-Wf (w s) (expire client now) tt n)) in
      rw ((lc (expire client now)).0, one.1)
        (
          (
            (λ c.
                rest.0.0 c
                ∙ ap (λ t. if contains cs c then live now t else t)
                    (ap (λ f. term (get f.leases c)) here
                      ∙ expire_one-term (w s) client now c (Wf-Named (w s) n))
                ∙ live_next now client c cs (term (get (w s).leases c))),
            (λ j k. rest.0.1 j k ∙ if_neg (nat_key.dec s j) k _ _),
            rest.0.2,
          ),
          rest.1,
        )

  expire_due-all :
      (w : ℕ → Fsm) (now : ℕ)
      → expire_due nh commands h w s now ≡ expire_all nh commands h w s now (due_leases (w s) now)
  unfolding expire_due read query
  expire_due-all w now =
      ap (λ o. expire_read nh commands h w s now (read_of o))
        (serves.reads w (due_leases_query now))
    where
      read_of : Option AnyAnswer → HostError ⊎ AnyAnswer
      read_of o = elim o [ none ↦ inl consensus | some a ↦ inr a ]

  -- The Raft host serving the shard: the expiry sweep of a well-formed shard at `now` succeeds. Afterwards
  -- no client has a lease there that was due at `now`, every lease that was not due has its client and its
  -- deadline as before, the shard is well formed, and no other shard has changed.
  pub expire_due-swept :
      (w : ℕ → Fsm) (now : ℕ)
      → Wf [] (w s)
      → let out = expire_due nh commands h w s now in
        ((c : Bytes)
          → term (get (out.0 s).leases c)
            ≡ (if is_due now (get (w s).leases c) then none else term (get (w s).leases c)))
        × ((j : ℕ) → s ≢ j → out.0 j ≡ w j)
        × Wf [] (out.0 s)
        × (out.1 ≡ none)
  expire_due-swept w now n =
      let all = expire_all-Expired now (due_leases (w s) now) w n in
      rw (expire_due-all w now) (
        (λ c. all.0.0 c ∙ due-live now (get (w s).leases c) _ (contains-due_leases (w s) now c)),
        all.0.1,
        all.0.2,
        all.1,
      )

  not_due :
      (now : ℕ) (old new : Option Lease)
      → term new ≡ (if is_due now old then none else term old)
      → is_some new ≡ true
      → (ls : Lease) × (new ≡ some ls) × (signed_ltb now ls.expire_at ≡ true)
  unfolding is_due
  not_due now old none e k = ground (arith, k)
  not_due now none (some ls) e k = ground (arith, e)
  not_due now (some old) (some ls) e k = (ls, refl, ground (arith, e))

  -- After the expiry sweep of a well-formed shard at `now`, over a Raft host that serves the shard, whoever
  -- holds a key there has a lease that runs past `now`: a key whose holder's lease was due has been
  -- handed on to a client with a live lease, or is free.
  pub expire_due-holders :
      (w : ℕ → Fsm) (now : ℕ) (name : Bytes) (lk : Lock)
      → Wf [] (w s)
      → let g = (expire_due nh commands h w s now).0 s in
        get g.locks name ≡ some lk
        → (ls : Lease) × (get g.leases lk.holder ≡ some ls) × (signed_ltb now ls.expire_at ≡ true)
  expire_due-holders w now name lk n e =
      let g = (expire_due nh commands h w s now).0 s in
      let swept = expire_due-swept w now n in
      not_due now (get (w s).leases lk.holder) (get g.leases lk.holder) (swept.0 lk.holder)
        (holder-leased g name lk swept.2 e)
