-- ===== src/Client/Options.antt =====
-- The options of a client and the gRPC dial options made of them: client/client.go. A source of tokens, a managed
-- identity, transport credentials and a caller's own dial options are types of their own. The caller's own dial options
-- stand behind the transport credentials, and may set others (Encrypted).
use zuul.Shared.{
  ℕ, Bytes, codes, Bool, true, false, not, ◌&&◌, ◌||◌, Option, none, some, List, [], ◌∷◌, ◌++◌, map,
  ite, ◌≟◌, if◌then◌else◌, is_some, bytes_key,
}

pub record Options (S I T X : Type 0) : Type 0 where
  pub client_id : Bytes
  pub user : Bytes
  pub ttl : ℕ
  pub auth_token : Bytes
  pub source : Option S
  pub azure_msi : Option I
  pub insecure : Bool
  pub creds : Option T
  pub dial_with : List X

pub data DialOption (S T X : Type 0) : Type 0 where
  transport : T → DialOption S T X
  extra : X → DialOption S T X
  errors_unary errors_stream : DialOption S T X
  token_unary token_stream : S → DialOption S T X
  user_unary user_stream : Bytes → DialOption S T X

abbrev pub set : {A : Type 0} → List A → Bool
set [] = false
set (x ∷ xs) = true

module _ {S I T X : Type 0} where
  unfoldable pub defaults : Options S I T X → Options S I T X
  defaults o = record o { ttl = 30000000000 }

  unfoldable pub no_options : Options S I T X
  no_options = record {
    client_id = [];
    user = [];
    ttl = 0;
    auth_token = [];
    source = none;
    azure_msi = none;
    insecure = false;
    creds = none;
    dial_with = [];
  }

  -- true for a valid combination
  unfoldable pub validate : Options S I T X → Bool
  validate o = not (o.insecure && (set o.auth_token || (is_some o.source || is_some o.azure_msi)))

  unfoldable pub with_client_id : Bytes → Options S I T X → Option (Options S I T X)
  with_client_id id o = some (record o { client_id = id })

  unfoldable pub with_user : Bytes → Options S I T X → Option (Options S I T X)
  with_user u o = some (record o { user = u })

  unfoldable pub with_ttl : ℕ → Options S I T X → Option (Options S I T X)
  with_ttl d o = some (record o { ttl = d })

  unfoldable pub with_auth_token : Bytes → Options S I T X → Option (Options S I T X)
  with_auth_token t o = some (record o { auth_token = t })

  unfoldable pub with_token_source : S → Options S I T X → Option (Options S I T X)
  with_token_source s o = some (record o { source = some s })

  unfoldable pub with_azure_msi : I → Options S I T X → Option (Options S I T X)
  with_azure_msi i o = some (record o { azure_msi = some i })

  unfoldable pub with_insecure : Options S I T X → Option (Options S I T X)
  with_insecure o = some (record o { insecure = true })

  unfoldable pub with_transport_credentials : T → Options S I T X → Option (Options S I T X)
  with_transport_credentials c o = some (record o { creds = some c })

  unfoldable pub with_dial_options : List X → Options S I T X → Option (Options S I T X)
  with_dial_options xs o = some (record o { dial_with = o.dial_with ++ xs })

  abbrev pub continued :
      (Options S I T X → Option (Options S I T X))
      → Option (Options S I T X)
      → Option (Options S I T X)
  continued next none = none
  continued next (some o) = next o

  -- The loop of `New` over the options.
  unfoldable pub apply_options :
      List (Options S I T X → Option (Options S I T X)) → Options S I T X → Option (Options S I T X)
  apply_options [] o = some o
  apply_options (f ∷ fs) o = continued (λ p. apply_options fs p) (f o)

-- `constant` is the source of one token, and `of_msi` that of a managed identity.
module _ {S I : Type 0} (constant : Bytes → S) (of_msi : I → Option S) where
  abbrev pub found_source : Option S → Option (Option S)
  found_source none = none
  found_source (some s) = some (some s)

  abbrev pub msi_source : Bytes → Option I → Option (Option S)
  msi_source token (some i) = found_source (of_msi i)
  msi_source [] none = some none
  msi_source token none = some (some (constant token))

  abbrev pub first_source : Bytes → Option I → Option S → Option (Option S)
  first_source token msi none = msi_source token msi
  first_source token msi (some s) = some (some s)

  -- The source, if any; none on an error.
  unfoldable pub token_source : {T X : Type 0} → Options S I T X → Option (Option S)
  token_source o = first_source o.auth_token o.azure_msi o.source

abbrev pub creds_or : {T : Type 0} → T → Option T → T
creds_or plaintext none = plaintext
creds_or plaintext (some c) = c

abbrev pub token_options : {S T X : Type 0} → Option S → List (DialOption S T X)
token_options none = []
token_options (some s) = token_unary s ∷ token_stream s ∷ []

abbrev pub user_options : {S T X : Type 0} → Bytes → List (DialOption S T X)
user_options [] = []
user_options u = user_unary u ∷ user_stream u ∷ []

-- `protocol` is the security protocol that credentials report, `plaintext` insecure.NewCredentials().
module _ {T : Type 0} (protocol : T → Bytes) where
  unfoldable pub is_insecure_creds : T → Bool
  is_insecure_creds c = ite (protocol c ≟ codes "insecure") true false

  abbrev pub is_secure : Option T → Bool
  is_secure none = false
  is_secure (some c) = not (is_insecure_creds c)

  module _ {S I X : Type 0} (plaintext : T) where
    unfoldable pub dial_options : Options S I T X → Option S → Option (List (DialOption S T X))
    unfolding is_insecure_creds
    dial_options o source =
        if is_some source && o.insecure
        then none
        else if is_some source && not (is_secure o.creds)
        then none
        else some (
            transport (creds_or plaintext o.creds)
            ∷ (map extra o.dial_with
                ++ (errors_unary ∷ errors_stream ∷ (token_options source ++ user_options o.user))))

    module _ (constant : Bytes → S) (of_msi : I → Option S) where
      abbrev pub sourced : Options S I T X → Option (Option S) → Option (List (DialOption S T X))
      sourced o none = none
      sourced o (some s) = dial_options o s

      abbrev pub checked : List Bytes → Option (Options S I T X) → Option (List (DialOption S T X))
      checked endpoints none = none
      checked endpoints (some o) =
          if set endpoints && validate o then sourced o (token_source constant of_msi o) else none

      -- What `New` dials with; none where it returns an error before it dials.
      unfoldable pub prepare :
          List Bytes
          → List (Options S I T X → Option (Options S I T X))
          → Option (List (DialOption S T X))
      unfolding validate token_source dial_options apply_options
      prepare endpoints opts = checked endpoints (apply_options opts (defaults no_options))
