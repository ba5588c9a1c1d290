-- ===== src/Node/Guard.antt =====
-- A node with token authentication guards its forward plane: the configuration check of
-- internal/node/node.go together with the gate of internal/node/auth.go.
use zuul.Shared.{
  Bytes, Bool, true, false, Option, none, some, [], ◌∷◌, ◌≡◌, refl, ap, ◌∙◌, subst, arith, ◌||◌,
  if◌then◌else◌, if-elim, is_some, bytes_key,
}
use zuul.GoMap.{GoMap, put}
use zuul.Node.Gate.{
  BearerAuth, Certificate, Context, denied, peer_cert_required, class_peer, nonempty, enabled,
  check, verify_peer,
}
use zuul.Node.Config.{
  Config, ConfigError, Gate, validate, bearer_enabled, is_set, hash_all, hash_tokens, new_gate,
  built, oidc_of, pool_of, unless_invalid, wrapped,
}

hash_all-nonempty :
    (hash : Bytes → Bytes) (ts h : GoMap Bytes Bytes)
    → nonempty (hash_all hash ts h) ≡ (nonempty ts || nonempty h)
unfolding hash_all put
hash_all-nonempty hash [] h = refl
hash_all-nonempty hash ((token, id) ∷ ts) h =
    hash_all-nonempty hash ts (put h (hash token) id) ∙ ground arith

validate-tls :
    (c : Config)
    → validate c ≡ none
    → bearer_enabled c ≡ true
    → (c.mutual_tls || c.server_tls) ≡ true
unfolding validate
validate-tls c v b = ground (arith, v, b)

abbrev from_some : {A : Type 0} → A → Option A → A
from_some a none = a
from_some a (some x) = x

abbrev has_verifier : Option (Option (Bytes → Option Bytes)) → Bool
has_verifier none = false
has_verifier (some o) = is_some o

module _ (hash : Bytes → Bytes) (verifier : Bytes → Option (Bytes → Option Bytes))
    (load : Bytes → Option (Certificate → Bool)) where
  -- What a gate has from the configuration it is built from.
  abbrev Parts :
      Config → Option (Option (Bytes → Option Bytes)) → Option ConfigError → Gate → Type 0
  Parts c oidc e g =
      (e ≡ none)
      × (g.guard_peer ≡ (c.mutual_tls || c.server_tls))
      × (enabled g.bearer ≡ (nonempty c.tokens || has_verifier oidc))
      × (is_some oidc ≡ true)

  built-Parts :
      (c : Config) (oidc : Option (Option (Bytes → Option Bytes)))
      (pool : Option (Option (Certificate → Bool))) (e : Option ConfigError) (g : Gate)
      → unless_invalid hash verifier load (built hash verifier load c oidc pool) e ≡ some g
      → Parts c oidc e g
  unfolding enabled hash_tokens
  built-Parts c none pool none g q = ground (arith, q)
  built-Parts c (some o) none none g q = ground (arith, q)
  built-Parts c oidc pool (some x) g q = ground (arith, q)
  built-Parts c (some o) (some p) none g q = subst (Parts c (some o) none) (ap (from_some g) q) (
    refl,
    refl,
    ap (λ b. b || is_some o) (hash_all-nonempty hash c.tokens [] ∙ ground arith),
    refl,
  )

  verifier-found :
      (c : Config) (o : Option (Bytes → Option Bytes))
      → let oidc = if is_set c.oidc_issuer then wrapped o else some none in
        is_some oidc ≡ true → has_verifier oidc ≡ is_set c.oidc_issuer
  verifier-found c none h = ground (arith, h)
  verifier-found c (some v) h = ground arith

  check-leafless :
      (b : BearerAuth) (chains : Option (Certificate → Bool)) (cns : GoMap Bytes (Unit {0}))
      (ctx : Context)
      → ctx.leaf ≡ none
      → check hash b true chains cns ctx class_peer ≡ denied peer_cert_required
  unfolding check verify_peer
  check-leafless b chains cns ctx leaf = rw leaf refl

  -- A gate that a node builds from its configuration has bearer authentication enabled exactly if the
  -- configuration has tokens or an OIDC issuer. If it is enabled, a call to the forward plane without a
  -- verified certificate is denied.
  pub new_gate-guards :
      (c : Config) (g : Gate) (ctx : Context)
      → new_gate hash verifier load c ≡ some g
      → ctx.leaf ≡ none
      → (enabled g.bearer ≡ bearer_enabled c)
        × ((if bearer_enabled c
              then check hash g.bearer g.guard_peer g.chains g.cns ctx class_peer
              else denied peer_cert_required)
            ≡ denied peer_cert_required)
  unfolding new_gate bearer_enabled
  new_gate-guards c g ctx q leaf = (
    same,
    if-elim (λ r. r ≡ denied peer_cert_required) (bearer_enabled c) _ _ guarded (λ _. refl),
  )
    where
      parts : Parts c (oidc_of hash verifier load c) (validate c) g
      parts =
          built-Parts c (oidc_of hash verifier load c) (pool_of hash verifier load c) (validate c) g
            q

      same : enabled g.bearer ≡ (nonempty c.tokens || is_set c.oidc_issuer)
      same =
          parts.2
          ∙ ap (λ b. nonempty c.tokens || b) (verifier-found c (verifier c.oidc_issuer) parts.3)

      guarded :
          bearer_enabled c ≡ true
          → check hash g.bearer g.guard_peer g.chains g.cns ctx class_peer
            ≡ denied peer_cert_required
      guarded b =
          ap (λ p. check hash g.bearer p g.chains g.cns ctx class_peer)
            (parts.1 ∙ validate-tls c parts.0 b)
          ∙ check-leafless g.bearer g.chains g.cns ctx leaf
