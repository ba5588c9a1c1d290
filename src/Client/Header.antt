-- ===== src/Client/Header.antt =====
-- The headers that a client's interceptors attach (client/client.go), and what the gate of internal/node/auth.go
-- makes of them.
use zuul.Shared.{
  Bytes, codes, Bool, true, false, Option, none, some, [], ◌∷◌, ◌++◌, ite, ◌≟◌, ◌≡◌, ◌≢◌, refl, ap,
  ◌∙◌, arith, bytes_key, if_neg, ◌||◌, is_some,
}
use zuul.GoMap.{GoMap, get}
use zuul.Node.Gate.{
  Context, Certificate, Checked, passed, denied, identity_mismatch, BearerAuth, enabled, check,
  authenticate, bearer_token, trim_space, trim_right, trim_left, strip_fold, class_client,
  reconcile_user, first_metadata, identity_from, nonempty, reconciled,
}

-- A request on which nothing has been attached.
abbrev pub bare : Context
bare = record {
  has_metadata = false;
  authorization = [];
  user_header = [];
  attached = none;
  leaf = none;
}

-- `token` is what the source gives for the request: none for an error, and the request is not made.
abbrev pub with_bearer : Context → Option Bytes → Option Context
with_bearer ctx none = none
with_bearer ctx (some t) = some (record ctx {
  has_metadata = true;
  authorization = ctx.authorization ++ ((codes "Bearer " ++ t) ∷ []);
})

unfoldable pub token_unary : Option Bytes → Context → Option Context
token_unary token ctx = with_bearer ctx token

unfoldable pub user_unary : Bytes → Context → Context
user_unary user ctx = record ctx {
  has_metadata = true;
  user_header = ctx.user_header ++ (user ∷ []);
}

trim_right-kept :
    (prefix text : Bytes)
    → text ≢ []
    → trim_right text ≡ text
    → trim_right (prefix ++ text) ≡ prefix ++ text
unfolding trim_right
trim_right-kept [] text n h = h
trim_right-kept (c ∷ cs) text n h =
    rw (trim_right-kept cs text n h) (if_neg ((cs ++ text) ≟ []) (ends cs) _ _)
  where
    ends : (cs : Bytes) → (cs ++ text) ≢ []
    ends [] = n
    ends (d ∷ ds) = λ e. ground (arith, e)

bearer_token-header :
    (t : Bytes) → t ≢ [] → trim_right t ≡ t → bearer_token (codes "Bearer " ++ t) ≡ t
unfolding bearer_token trim_left strip_fold trim_space
bearer_token-header t n h = rw (trim_right-kept (codes "Bearer ") t n h) refl

filled :
    (m : GoMap Bytes Bytes) (k v : Bytes) (rest : Bool)
    → get m k ≡ some v
    → (nonempty m || rest) ≡ true
unfolding get
filled [] k v rest e = ground (arith, e)
filled (x ∷ m) k v rest e = refl

-- A token that does not end in space, that the gate's table has for an identity: a request with the token for its
-- authorization header passes the gate, and carries that identity, if it names no user or that
-- identity as the user; if it names another user it is denied.
pub token_unary-check :
    (hash : Bytes → Bytes) (b : BearerAuth) (guard : Bool) (chains : Option (Certificate → Bool))
    (cns : GoMap Bytes (Unit {0})) (token id user : Bytes)
    → token ≢ []
    → trim_right token ≡ token
    → id ≢ []
    → get b.tokens (hash token) ≡ some id
    → let carried : Context → Checked = λ c. passed (record c { attached = some id }) in
      let checked : Context → Checked = λ c. check hash b guard chains cns c class_client in
      (ctx : Context) × (token_unary (some token) bare ≡ some ctx)
      × (checked ctx ≡ carried ctx)
      × (checked (user_unary user ctx) ≡ (
          ite (trim_space user ≟ []) (carried (user_unary user ctx)) (
            ite (trim_space user ≟ id) (carried (user_unary user ctx)) (denied identity_mismatch))))
unfolding token_unary user_unary check authenticate reconcile_user first_metadata identity_from
    enabled
token_unary-check hash b guard chains cns token id user n h m g = (
  _,
  refl,
  rw (filled b.tokens (hash token) id (is_some b.oidc) g)
      (rw (bearer_token-header token n h) (rw g (ground (arith, m)))),
  rw (filled b.tokens (hash token) id (is_some b.oidc) g) (
      rw (bearer_token-header token n h) (
        rw g (
          ap (reconciled _ (trim_space user)) (if_neg (id ≟ []) m _ (some id))
          ∙ if_neg (id ≟ []) m _ _))),
)
