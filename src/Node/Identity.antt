-- ===== src/Node/Identity.antt =====
-- Whose identity a call carries past the gate.
use zuul.Shared.{
  Bytes, Bool, true, Option, none, some, List, [], ◌∷◌, ◌≟◌, ◌≡◌, ◌≢◌, ◌⊎◌, inl, inr, refl, subst,
  bytes_key, Option-cases, ite-elim, if-elim, if_neg,
}
use zuul.GoMap.{GoMap, get}
use zuul.Node.Gate.{
  Certificate, Context, Checked, passed, denied, BearerAuth, enabled, authenticate, reconcile_user,
  check, class_client, bearer_token, identity_from, by_token, by_oidc, with_values, then_reconciled,
  first_metadata,
}

module _ (hash : Bytes → Bytes) (b : BearerAuth) where
  -- The token stands for the identity: by the table of hashed tokens, or by the verifier.
  abbrev pub StandsFor : Bytes → Bytes → Type 0
  StandsFor token id =
      (get b.tokens (hash token) ≡ some id)
      ⊎ ((verify : Bytes → Option Bytes) × (b.oidc ≡ some verify) × (verify token ≡ some id))

  -- The call's first authorization header has a token that stands for the identity.
  abbrev pub Authentic : Context → Bytes → Type 0
  Authentic ctx id =
      (v : Bytes) × (vs : List Bytes) × (ctx.authorization ≡ v ∷ vs) × StandsFor (bearer_token v) id

  abbrev Attaches : Context → Bytes → Checked → Type 0
  Attaches ctx token (denied e) = Unit
  Attaches ctx token (passed ctx') = (id : Bytes) × (ctx'.attached ≡ some id) × StandsFor token id

  by_oidc-Attaches :
      (ctx : Context) (token : Bytes) (o : Option (Bytes → Option Bytes))
      → b.oidc ≡ o
      → Attaches ctx token (by_oidc ctx token o)
  by_oidc-Attaches ctx token none e = tt
  by_oidc-Attaches ctx token (some verify) e = elim (Option-cases (verify token)) [
    | inl q ↦ rw q tt
    | inr (id, q) ↦ rw q (id, refl, inr (verify, e, q))
  ]

  by_token-Attaches :
      (ctx : Context) (token : Bytes)
      → Attaches ctx token (by_token ctx b token (get b.tokens (hash token)))
  by_token-Attaches ctx token = elim (Option-cases (get b.tokens (hash token))) [
    | inl q ↦ rw q (by_oidc-Attaches ctx token b.oidc refl)
    | inr (id, q) ↦ rw q (id, refl, inl q)
  ]

  abbrev KeepsId : Bytes → Checked → Type 0
  KeepsId id (denied e) = Unit
  KeepsId id (passed ctx) = identity_from ctx ≡ some id

  -- Reconciling keeps an attached identity that is not empty, or refuses the call.
  reconcile-KeepsId :
      (ctx : Context) (id : Bytes)
      → ctx.attached ≡ some id
      → id ≢ []
      → KeepsId id (reconcile_user ctx)
  unfolding reconcile_user identity_from
  reconcile-KeepsId ctx id e n =
      let known : identity_from ctx ≡ some id = rw e (if_neg (id ≟ []) n _ _) in
      let user = first_metadata ctx in
      rw known (
        ite-elim (KeepsId id) (id ≟ []) _ _ (λ z. absurd (n z))
          (λ _.
            ite-elim (KeepsId id) (user ≟ []) _ _ (λ _. known)
              (λ _. ite-elim (KeepsId id) (user ≟ id) _ _ (λ _. known) (λ _. tt))))

  -- What a call that passes carries on.
  abbrev pub Carries : Context → Checked → Type 0
  Carries ctx (denied e) = Unit
  Carries ctx (passed ctx') =
      (id : Bytes) × Authentic ctx id × (id ≢ [] → identity_from ctx' ≡ some id)

  reconciled-Carries :
      (ctx ctx' : Context) (id : Bytes)
      → Authentic ctx id
      → ctx'.attached ≡ some id
      → (c : Checked) → reconcile_user ctx' ≡ c
      → Carries ctx c
  reconciled-Carries ctx ctx' id a e (denied x) q = tt
  reconciled-Carries ctx ctx' id a e (passed c) q =
      (id, a, λ n. subst (KeepsId id) q (reconcile-KeepsId ctx' id e n))

  authenticated-Carries :
      (ctx : Context) (v : Bytes) (vs : List Bytes) (c : Checked)
      → ctx.authorization ≡ v ∷ vs
      → Attaches ctx (bearer_token v) c
      → Carries ctx (then_reconciled hash c)
  authenticated-Carries ctx v vs (denied x) e h = tt
  authenticated-Carries ctx v vs (passed ctx') e (id, q, st) =
      reconciled-Carries ctx ctx' id (v, vs, e, st) q (reconcile_user ctx') refl

  values-Carries :
      (ctx : Context) (vs : List Bytes)
      → ctx.authorization ≡ vs
      → Carries ctx (then_reconciled hash (with_values hash b ctx vs))
  values-Carries ctx [] e = tt
  values-Carries ctx (v ∷ vs) e =
      authenticated-Carries ctx v vs _ e (by_token-Attaches ctx (bearer_token v))

  -- Where bearer authentication is configured, a client-facing call that passes the gate had a token in
  -- its first authorization header that stands for an identity, by the table of hashed tokens or by the
  -- verifier; and if that identity is not empty, it is the one that the call carries on, whatever the
  -- user header claims and whatever certificate was presented.
  pub check-Carries :
      (guard : Bool) (chains : Option (Certificate → Bool)) (cns : GoMap Bytes (Unit {0}))
      (ctx : Context)
      → enabled b ≡ true
      → Carries ctx (check hash b guard chains cns ctx class_client)
  unfolding check authenticate
  check-Carries guard chains cns ctx e = rw e (
      if-elim (λ c. Carries ctx (then_reconciled hash c)) ctx.has_metadata _ _
        (λ _. values-Carries ctx ctx.authorization refl) (λ _. tt))
