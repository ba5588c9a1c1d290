-- ===== src/Errors.antt =====
-- The service's errors and their gRPC codes: errors/errors.go and errors/grpc.go.
pub mod Crossing
use zuul.Shared.{ℕ, Bool, true, false, Option, none, some}

pub data Category : Type 0 where
  unknown_category : Category
  cat_request cat_not_found cat_unauthenticated cat_permission : Category
  cat_precondition cat_resource_exhausted cat_unavailable : Category
  cat_unimplemented cat_internal : Category

-- The gRPC codes.
pub data Code : Type 0 where
  ok canceled unknown invalid_argument deadline_exceeded not_found already_exists : Code
  permission_denied resource_exhausted failed_precondition aborted out_of_range : Code
  unimplemented internal unavailable data_loss unauthenticated : Code

-- `catToCode` and `Category.Code`
unfoldable pub code : Category → Code
code unknown_category = unknown
code cat_request = invalid_argument
code cat_not_found = not_found
code cat_unauthenticated = unauthenticated
code cat_permission = permission_denied
code cat_precondition = failed_precondition
code cat_resource_exhausted = resource_exhausted
code cat_unavailable = unavailable
code cat_unimplemented = unimplemented
code cat_internal = internal

unfoldable pub code_to_cat : Code → Category
code_to_cat invalid_argument = cat_request
code_to_cat not_found = cat_not_found
code_to_cat unauthenticated = cat_unauthenticated
code_to_cat permission_denied = cat_permission
code_to_cat failed_precondition = cat_precondition
code_to_cat resource_exhausted = cat_resource_exhausted
code_to_cat unavailable = cat_unavailable
code_to_cat unimplemented = cat_unimplemented
code_to_cat internal = cat_internal
code_to_cat other = unknown_category

-- An error: one of another package, with the code of the gRPC status in its chain if it has one; or one that
-- `E` has stamped with a category, on a cause.
pub data Error : Type 0 where
  foreign : Option Code → Error
  stamped : Category → Error → Error

-- status.FromError on what the gRPC library finds in the chain: a stamped error reports its cause's status
-- if that has one, else its category's code (`GRPCStatus`).
unfoldable pub grpc_status : Error → Option Code
unfolding code
grpc_status (foreign s) = s
grpc_status (stamped c cause) = elim (grpc_status cause) [ none ↦ some (code c) | some s ↦ some s ]

abbrev pub classified : Error → Option Code → Error
classified e none = stamped cat_internal e
classified e (some _) = e

-- `Status`, on an error that is not nil, and on a handler's.
unfoldable pub status : Error → Error
unfolding grpc_status
status e = classified e (grpc_status e)

unfoldable pub status_of : Option Error → Option Error
unfolding status
status_of none = none
status_of (some e) = some (status e)

abbrev pub from_code : Error → Option Code → Error
from_code e none = stamped cat_internal e
from_code e (some s) = stamped (code_to_cat s) e

unfoldable pub from_status : Option Error → Option Error
unfolding grpc_status
from_status none = none
from_status (some e) = some (from_code e (grpc_status e))
