-- ===== src/Client/Encrypted.antt =====
-- The dial options of a client that sends tokens: `New` of client/client.go.
use zuul.Shared.{
  Bytes, codes, Bool, true, false, not, ◌&&◌, ◌||◌, Option, none, some, List, [], ◌∷◌, ◌++◌, map,
  if◌then◌else◌, is_some, ◌≡◌, ◌≢◌, refl, ap, ◌∙◌, sym, arith, bytes_key,
}
use zuul.Client.Options.{
  Options, DialOption, transport, extra, errors_unary, errors_stream, token_unary, token_stream,
  token_options, user_options, dial_options, prepare, apply_options, defaults, no_options, checked,
  sourced, token_source, is_insecure_creds, creds_or, is_secure,
}

-- gRPC takes the dial options in their order, and the last credentials that are set. `sets` is what a caller's own
-- dial option sets, if it sets any.
abbrev pub replaced : {T : Type 0} → Option T → Option T → Option T
replaced now none = now
replaced now (some c) = some c

abbrev pub chosen : {S T X : Type 0} → (X → Option T) → Option T → DialOption S T X → Option T
chosen sets now (transport c) = some c
chosen sets now (extra x) = replaced now (sets x)
chosen sets now other = now

unfoldable pub channel :
    {S T X : Type 0} → (X → Option T) → Option T → List (DialOption S T X) → Option T
channel sets now [] = now
channel sets now (o ∷ os) = channel sets (chosen sets now o) os

-- Credentials, or the last that one of the caller's own dial options sets in their place.
unfoldable pub overridden : {T X : Type 0} → (X → Option T) → Option T → List X → Option T
overridden sets now [] = now
overridden sets now (x ∷ xs) = overridden sets (replaced now (sets x)) xs

abbrev pub attaches_token : {S T X : Type 0} → DialOption S T X → Bool
attaches_token (token_unary s) = true
attaches_token (token_stream s) = true
attaches_token other = false

-- An interceptor that attaches a token is among the dial options.
unfoldable pub sends_token : {S T X : Type 0} → List (DialOption S T X) → Bool
sends_token [] = false
sends_token (o ∷ os) = attaches_token o || sends_token os

extras-channel :
    {S T X : Type 0} (sets : X → Option T) (now : Option T) (xs : List X)
    (os : List (DialOption S T X))
    → channel sets now (map extra xs ++ os) ≡ channel sets (overridden sets now xs) os
unfolding channel overridden
extras-channel sets now [] os = refl
extras-channel sets now (x ∷ xs) os = extras-channel sets (replaced now (sets x)) xs os

extras-sends_token :
    {S T X : Type 0} (xs : List X) (os : List (DialOption S T X))
    → sends_token (map extra xs ++ os) ≡ sends_token os
unfolding sends_token
extras-sends_token [] os = refl
extras-sends_token (x ∷ xs) os = extras-sends_token xs os

headers-channel :
    {S T X : Type 0} (sets : X → Option T) (now : Option T) (s : Option S) (user : Bytes)
    → channel {S = S} sets now (token_options s ++ user_options user) ≡ now
unfolding channel
headers-channel sets now none [] = refl
headers-channel sets now none (c ∷ u) = refl
headers-channel sets now (some s) [] = refl
headers-channel sets now (some s) (c ∷ u) = refl

headers-sends_token :
    (S T X : Type 0) (user : Bytes)
    → sends_token {S = S} {T = T} {X = X} (token_options none ++ user_options user) ≡ false
unfolding sends_token
headers-sends_token S T X [] = refl
headers-sends_token S T X (c ∷ u) = refl

-- The options have secure credentials, which the channel has, unless one of the caller's own dial options sets
-- others.
abbrev pub Encrypts :
    {S I T X : Type 0}
    → (T → Bytes)
    → (X → Option T)
    → Options S I T X
    → List (DialOption S T X)
    → Type 0
Encrypts {T = T} protocol sets o os =
    (c : T) × (o.creds ≡ some c)
    × (protocol c ≢ codes "insecure")
    × (channel sets none os ≡ overridden sets (some c) o.dial_with)

-- The options that are read, and what they make the client dial with.
abbrev pub Dials :
    {S I T X : Type 0}
    → (T → Bytes)
    → (X → Option T)
    → Option (Options S I T X)
    → List (DialOption S T X)
    → Type 0
Dials {S} {I} {T} {X} protocol sets read os =
    (o : Options S I T X) × (read ≡ some o) × Encrypts protocol sets o os

value_or : {A : Type 0} → A → Option A → A
value_or x none = x
value_or x (some y) = y

some_one : {A : Type 0} {x y : A} → some x ≡ some y → x ≡ y
unfolding value_or
some_one {x = x} e = ap (value_or x) e

neither :
    {A : Type 0} (a b : Bool) (x y : A)
    → (if a then none else if b then none else some x) ≡ some y
    → (a ≡ false) × (b ≡ false) × (x ≡ y)
neither true b x y e = ground (arith, e)
neither false true x y e = ground (arith, e)
neither false false x y e = (refl, refl, some_one e)

secure_protocol :
    {T : Type 0} (protocol : T → Bytes) (c : T)
    → not (not (is_insecure_creds protocol c)) ≡ false
    → protocol c ≢ codes "insecure"
unfolding is_insecure_creds
secure_protocol protocol c h = λ q. ground (arith, q, h)

module _ {S I T X : Type 0} (protocol : T → Bytes) (plaintext : T) (sets : X → Option T) where
  abbrev dialed : Options S I T X → Option S → Option T → List (DialOption S T X)
  dialed o source creds =
      transport (creds_or plaintext creds)
      ∷ (map extra o.dial_with
          ++ (errors_unary ∷ errors_stream ∷ (token_options source ++ user_options o.user)))

  dialed-channel :
      (o : Options S I T X) (source : Option S) (c : T)
      → channel sets none (dialed o source (some c)) ≡ overridden sets (some c) o.dial_with
  unfolding channel
  dialed-channel o source c =
      extras-channel sets (some c) o.dial_with _
      ∙ headers-channel sets (overridden sets (some c) o.dial_with) source o.user

  dialed-sends_token :
      (o : Options S I T X) (creds : Option T) → sends_token (dialed o none creds) ≡ false
  unfolding sends_token
  dialed-sends_token o creds = extras-sends_token o.dial_with _ ∙ headers-sends_token S T X o.user

  dial_options-Encrypts :
      (o : Options S I T X) (source : Option S) (os : List (DialOption S T X))
      → dial_options protocol plaintext o source ≡ some os
      → sends_token os ≡ true
      → Encrypts protocol sets o os
  unfolding dial_options
  dial_options-Encrypts o source os e h = by_creds source o.creds refl e
    where
      by_creds :
          (source : Option S) (creds : Option T)
          → o.creds ≡ creds
          → (if is_some source && o.insecure
              then none
              else if is_some source && not (is_secure protocol creds)
              then none
              else some (dialed o source creds))
            ≡ some os
          → Encrypts protocol sets o os
      by_creds none creds q e =
          ground (arith, sym (ap sends_token (some_one e)), h, dialed-sends_token o creds)
      by_creds (some s) none q e = ground (arith, neither o.insecure true _ os e)
      by_creds (some s) (some c) q e =
          let (_, p, r) = neither o.insecure (not (not (is_insecure_creds protocol c))) _ os e in
          (
            c,
            q,
            secure_protocol protocol c p,
            ap (channel sets none) (sym r) ∙ dialed-channel o (some s) c,
          )

  module _ (constant : Bytes → S) (of_msi : I → Option S) where
    within :
        (a : Bool) (x : Option (List (DialOption S T X))) (os : List (DialOption S T X))
        → (if a then x else none) ≡ some os
        → x ≡ some os
    within true x os e = e
    within false x os e = ground (arith, e)

    checked-Dials :
        (endpoints : List Bytes) (read : Option (Options S I T X)) (os : List (DialOption S T X))
        → checked protocol plaintext constant of_msi endpoints read ≡ some os
        → sends_token os ≡ true
        → Dials protocol sets read os
    checked-Dials endpoints none os e h = ground (arith, e)
    checked-Dials endpoints (some o) os e h =
        (o, refl, by_source (token_source constant of_msi o) (within _ _ os e))
      where
        by_source :
            (s : Option (Option S))
            → sourced protocol plaintext constant of_msi o s ≡ some os
            → Encrypts protocol sets o os
        by_source none e = ground (arith, e)
        by_source (some s) e = dial_options-Encrypts o s os e h

    -- If a client dials with an interceptor that attaches a token to each request, its options are read without an
    -- error and have transport credentials, those that WithTransportCredentials sets, of which the
    -- security protocol is not "insecure"; and where gRPC takes the last credentials that are set, the channel
    -- has these, or the last that one of the caller's own dial options sets in their place.
    pub prepare-Dials :
        (endpoints : List Bytes) (opts : List (Options S I T X → Option (Options S I T X)))
        (os : List (DialOption S T X))
        → prepare protocol plaintext constant of_msi endpoints opts ≡ some os
        → sends_token os ≡ true
        → Dials protocol sets (apply_options opts (defaults no_options)) os
    unfolding prepare
    prepare-Dials endpoints opts os =
        checked-Dials endpoints (apply_options opts (defaults no_options)) os
