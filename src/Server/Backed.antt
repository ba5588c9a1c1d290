-- ===== src/Server/Backed.antt =====
-- What stands behind a reply that tells a queued caller that it holds the key.
use zuul.Shared.{
  ℕ, Bytes, Bool, true, Option, none, some, List, [], ◌∷◌, ◌≟◌, ◌&&◌, bytes_key, signed_ltb, ◌≡◌,
  ◌⊎◌, inl, inr, refl, sym, subst, arith, Option-cases, if-elim, ite-elim,
}
use zuul.Auth.Authz.{Authorizer}
use zuul.Fsm.Types.{Event, Command}
use zuul.Fsm.Queries.{Status}
use zuul.Session.{SessionError, Proposed}
use zuul.Server.{Reply, answer, at_revision, status_is, error, holding, held_status}
use zuul.Server.Waiting.{wait_for, give_up}

-- The subscription has delivered the event.
abbrev pub Delivered : Event → List Event → Type 0
Delivered e [] = ⊥
Delivered e (x ∷ xs) = (e ≡ x) ⊎ Delivered e xs

module _ {World : Type 0} (shard : Bytes → ℕ) (policy : Authorizer) (identity : Bytes)
    (ensure : World → Bytes → ℕ → World × Option SessionError)
    (propose : World → ℕ → Command → World × Proposed)
    (read : World → ℕ → Bytes → World × Option Status) (live : World → Bool)
    (name client : Bytes) where
  -- An event delivered, or a read of the key, that shows the client as the holder with the token.
  abbrev pub Backed : List Event → ℕ → Type 0
  Backed es token =
      ((e : Event) × Delivered e es × (e.holder ≡ client) × (e.token ≡ token))
      ⊎ ((w : World) × (st : Status) × ((read w (shard name) name).1 ≡ some st)
          × (st.held ≡ true)
          × (st.holder ≡ client)
          × (st.token ≡ token))

  abbrev pub Shown : List Event → Reply → Type 0
  Shown es (answer r) = r.acquired ≡ true → Backed es r.fencing_token
  Shown es x = Unit

  held_status-lem :
      (st : Status) (reply : Reply)
      → held_status name client (some st) ≡ some reply
      → (st.held ≡ true) × (st.holder ≡ client) × (reply ≡ holding name st.token st.revision)
  held_status-lem st reply q = ground arith

  Shown-held :
      (es : List Event) (w : World) (o : Option Status) (reply : Reply)
      → (read w (shard name) name).1 ≡ o
      → held_status name client o ≡ some reply
      → Shown es reply
  Shown-held es w none reply e q = ground (arith, q)
  Shown-held es w (some st) reply e q =
      let (a, b, r) = held_status-lem st reply q in
      subst (Shown es) (sym r) (λ _. inr (w, st, e, a, b, refl))

  Shown-more : (e : Event) (es : List Event) (r : Reply) → Shown es r → Shown (e ∷ es) r
  Shown-more e es (answer r) h =
      λ a. elim (h a) [ inl (x, d, p, q) ↦ inl (x, inr d, p, q) | inr y ↦ inr y ]
  Shown-more e es (at_revision r) h = tt
  Shown-more e es (status_is r) h = tt
  Shown-more e es (error r) h = tt

  Shown-give_up :
      (es : List Event) (deadline : ℕ) (alive : Bool)
      → Shown es (give_up shard policy identity ensure propose read live name deadline alive)
  unfolding give_up
  Shown-give_up es deadline alive =
      if-elim (Shown es) (signed_ltb 0 deadline && alive) _ _ (λ _ q. ground (arith, q)) (λ _. tt)

  -- When the wait of a queued caller ends with the reply that it holds the key, under some token, then an
  -- event that was delivered to it, or a read of the key's status, named it as the holder under that
  -- token; whatever the events, the world and the deadline are.
  pub wait_for-Shown :
      (w : World) (deadline : ℕ) (alive : Bool) (es : List Event)
      → Shown es
          (wait_for shard policy identity ensure propose read live w name client deadline alive
            es).1
  unfolding wait_for
  wait_for-Shown w deadline alive [] =
      elim (Option-cases (held_status name client (read w (shard name) name).1)) [
        | inl e ↦ rw e (Shown-give_up [] deadline alive)
        | inr (reply, e) ↦ rw e (Shown-held [] w _ reply refl e)
      ]
  wait_for-Shown w deadline alive (e ∷ es) =
      ite-elim (λ (p : World × Reply). Shown (e ∷ es) p.1) (e.holder ≟ client) _ _
        (λ h _. inl (e, inl refl, h, refl))
        (λ _. elim (Option-cases (held_status name client (read w (shard name) name).1)) [
          | inl q ↦
              rw q
                (Shown-more e es _ (wait_for-Shown (read w (shard name) name).0 deadline alive es))
          | inr (reply, q) ↦ rw q (Shown-held (e ∷ es) w _ reply refl q)
        ])
