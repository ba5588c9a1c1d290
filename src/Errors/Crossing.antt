-- ===== src/Errors/Crossing.antt =====
-- An error's way from a handler to the client, through the interceptors of errors/grpc.go.
use zuul.Shared.{Option, none, some, ◌≡◌, refl, ap, ◌∙◌}
use zuul.Errors.{
  Category, unknown_category, cat_request, cat_not_found, cat_unauthenticated, cat_permission,
  cat_precondition, cat_resource_exhausted, cat_unavailable, cat_unimplemented, cat_internal, Code,
  Error, foreign, stamped, code, code_to_cat, grpc_status, status, status_of, from_status,
}

code_to_cat-code : (c : Category) → code_to_cat (code c) ≡ c
unfolding code_to_cat code
code_to_cat-code unknown_category = refl
code_to_cat-code cat_request = refl
code_to_cat-code cat_not_found = refl
code_to_cat-code cat_unauthenticated = refl
code_to_cat-code cat_permission = refl
code_to_cat-code cat_precondition = refl
code_to_cat-code cat_resource_exhausted = refl
code_to_cat-code cat_unavailable = refl
code_to_cat-code cat_unimplemented = refl
code_to_cat-code cat_internal = refl

-- What the transport makes of a server's error: an error with the code of its status alone.
abbrev pub transported : Error → Error
transported e = foreign (grpc_status e)

abbrev pub category : Option Error → Option Category
category none = none
category (some (foreign s)) = none
category (some (stamped c e)) = some c

abbrev pub carried : Option Error → Option Error
carried none = none
carried (some e) = some (transported e)

-- What the client gets of what a handler returns.
abbrev pub received : Option Error → Option Error
received o = from_status (carried (status_of o))

received-code :
    (e : Error) (k : Code)
    → grpc_status e ≡ some k
    → received (some e) ≡ some (stamped (code_to_cat k) (foreign (some k)))
unfolding from_status status_of status grpc_status
received-code e k h = rw (h, h) refl

-- An error that a handler has stamped with a category, its cause having no gRPC status of its own, reaches the
-- client stamped with the same category and with that category's code.
pub received-category :
    (c : Category) (cause : Error)
    → grpc_status cause ≡ none
    → let got = received (some (stamped c cause)) in
      (category got ≡ some c) × (got ≡ some (stamped c (foreign (some (code c)))))
unfolding grpc_status
received-category c cause h =
    let at = received-code (stamped c cause) (code c) (rw h refl) in
    let back = ap (λ k. some (stamped k (foreign (some (code c))))) (code_to_cat-code c) in
    (ap category (at ∙ back), at ∙ back)
