-- ===== src/Router/Validation/Headers.antt =====
-- The header policies, error responses and header matches of internal/router/route.go.
use dev_gate.Common.{
  is_empty, Bool, false, not, ◌||◌, List, [], ◌∷◌, Text, codes, has_prefix, contains, Result, ok,
  ◌>>◌, ◌>>=◌, reject,
}
use dev_gate.Router.Std.{Std}
use dev_gate.Router.Route.{HeaderTransformPolicy, ErrorResponse, HeaderMatch}

pub data HeaderError : Type 0 where
  invalid_name_to_set reserved_header invalid_value duplicate_to_set : HeaderError
  invalid_name_to_remove duplicate_to_remove set_and_removed : HeaderError
  invalid_name duplicate_name : HeaderError
  header_name_empty header_value_empty : HeaderError

abbrev reserved_request_names : List Text
reserved_request_names =
    codes "host"
    ∷ codes "connection"
    ∷ codes "content-length"
    ∷ codes "forwarded"
    ∷ codes "keep-alive"
    ∷ codes "proxy-authenticate"
    ∷ codes "proxy-authorization"
    ∷ codes "proxy-connection"
    ∷ codes "te"
    ∷ codes "trailer"
    ∷ codes "transfer-encoding"
    ∷ codes "upgrade"
    ∷ codes "x-real-ip"
    ∷ codes "x-request-id"
    ∷ []

abbrev reserved_response_names : List Text
reserved_response_names =
    codes "connection"
    ∷ codes "content-length"
    ∷ codes "content-encoding"
    ∷ codes "keep-alive"
    ∷ codes "proxy-authenticate"
    ∷ codes "proxy-authorization"
    ∷ codes "proxy-connection"
    ∷ codes "te"
    ∷ codes "trailer"
    ∷ codes "transfer-encoding"
    ∷ codes "upgrade"
    ∷ codes "x-request-id"
    ∷ []

module _ (std : Std) where
  unfoldable pub is_reserved_request_header : Text → Bool
  unfolding contains has_prefix
  is_reserved_request_header name =
      contains reserved_request_names (std.to_lower name)
      || has_prefix (std.to_lower name) (codes "x-forwarded-")

  unfoldable pub is_reserved_response_header : Text → Bool
  unfolding contains
  is_reserved_response_header name = contains reserved_response_names (std.to_lower name)

  -- The first loop of HeaderTransformPolicy.validate; its result is the set of the names.
  unfoldable pub check_set :
      (Text → Bool) → List Text → List (Text × Text) → Result HeaderError (List Text)
  unfolding contains
  check_set is_reserved set_names [] = ok set_names
  check_set is_reserved set_names ((header, value) ∷ rest) = do
    reject (not (std.valid_header_field_name header)) invalid_name_to_set
    reject (is_reserved header) reserved_header
    reject (not (std.valid_header_field_value value)) invalid_value
    reject (contains set_names (std.to_lower header)) duplicate_to_set
    check_set is_reserved (std.to_lower header ∷ set_names) rest

  -- The second one.
  unfoldable pub check_remove :
      (Text → Bool) → List Text → List Text → List Text → Result HeaderError (Unit {0})
  unfolding contains
  check_remove is_reserved set_names remove_names [] = ok tt
  check_remove is_reserved set_names remove_names (header ∷ rest) = do
    reject (not (std.valid_header_field_name header)) invalid_name_to_remove
    reject (is_reserved header) reserved_header
    reject (contains remove_names (std.to_lower header)) duplicate_to_remove
    reject (contains set_names (std.to_lower header)) set_and_removed
    check_remove is_reserved set_names (std.to_lower header ∷ remove_names) rest

  unfoldable pub validate_policy :
      (Text → Bool) → HeaderTransformPolicy → Result HeaderError (Unit {0})
  unfolding check_set check_remove
  validate_policy is_reserved p = do
    set_names ← check_set is_reserved [] p.set
    check_remove is_reserved set_names [] p.remove

  folds_to : Text → List Text → Bool
  folds_to name [] = false
  folds_to name (h ∷ hs) = std.equal_fold h name || folds_to name hs

  folds_to_key : Text → List (Text × Text) → Bool
  folds_to_key name [] = false
  folds_to_key name ((h, value) ∷ hs) = std.equal_fold h name || folds_to_key name hs

  unfoldable pub modifies : HeaderTransformPolicy → Text → Bool
  unfolding folds_to folds_to_key
  modifies p name = folds_to_key name p.set || folds_to name p.remove

  unfoldable pub check_response_headers :
      List Text → List (Text × Text) → Result HeaderError (Unit {0})
  unfolding contains is_reserved_response_header
  check_response_headers seen [] = ok tt
  check_response_headers seen ((name, value) ∷ rest) = do
    reject (not (std.valid_header_field_name name)) invalid_name
    reject (not (std.valid_header_field_value value)) invalid_value
    reject (is_reserved_response_header name) reserved_header
    reject (contains seen (std.to_lower name)) duplicate_name
    check_response_headers (std.to_lower name ∷ seen) rest

  -- ErrorResponse.validate
  unfoldable pub validate_error_response : ErrorResponse → Result HeaderError (Unit {0})
  unfolding check_response_headers
  validate_error_response e = check_response_headers [] e.headers

  -- HeaderMatch.validate
  unfoldable pub validate_header_match : HeaderMatch → Result HeaderError (Unit {0})
  validate_header_match h = do
    reject (is_empty (std.trim_space h.name)) header_name_empty
    reject (is_empty (std.trim_space h.exact)) header_value_empty
    reject (not (std.valid_header_field_name h.name)) invalid_name
    reject (not (std.valid_header_field_value h.exact)) invalid_value
    reject (is_reserved_request_header h.name) reserved_header
