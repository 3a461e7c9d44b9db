-- ===== src/Router/Validation.antt =====
-- The validation of a route in internal/router/route.go and internal/router/upstream.go, in the
-- order of the source. Each message is a constructor; a wrapped error is its argument.
pub mod Headers
pub mod Upstreams
pub mod Actions
use dev_gate.Common.{
  is_empty, ℕ, Bool, true, false, not, ◌&&◌, ◌||◌, List, [], ◌∷◌, Option, none, some, Text, codes,
  text_eq, has_prefix, has_suffix, contains, ◌==◌, if◌then◌else◌, is_some, ℤ, pos, ltz, lez, Result,
  err, ok, ◌>>◌, reject, wrap, when_some, one_of, eqz,
}
use dev_gate.Router.Std.{Std}
use dev_gate.Router.Route.{
  Route, DirectResponse, Redirect, RateLimitPolicy, HeaderMatch, ErrorResponse,
}
use dev_gate.Router.Matching.{is_exact}
use dev_gate.Router.Hostname.{HostError, validate_hostname}
use Headers.{
  HeaderError, validate_policy, is_reserved_request_header, is_reserved_response_header,
  validate_error_response, validate_header_match,
}
use Actions.{ActionError, validate_action}

pub data RateLimitError : Type 0 where
  rate_not_finite rate_not_positive burst_not_positive : RateLimitError

pub data RouteError : Type 0 where
  name_empty both_paths no_path prefix_relative prefix_trailing exact_relative : RouteError
  strip_without_prefix : RouteError
  action : ActionError → RouteError
  method_empty method_not_uppercase method_invalid method_duplicate : RouteError
  host_invalid : HostError → RouteError
  host_duplicate timeout_negative body_limit_negative : RouteError
  request_headers_policy response_headers_policy : HeaderError → RouteError
  response_code response_needs_rate_limit response_needs_body_limit : RouteError
  response_needs_upstream : RouteError
  response_invalid : HeaderError → RouteError
  rate_limit_policy : RateLimitError → RouteError
  header_match : HeaderError → RouteError
  header_match_duplicate : RouteError

-- RateLimitPolicy.validate
unfoldable pub validate_rate_limit : RateLimitPolicy → Result RateLimitError (Unit {0})
validate_rate_limit p = do
  reject (not p.requests_per_second.finite) rate_not_finite
  reject (not p.requests_per_second.positive) rate_not_positive
  reject (lez p.burst (pos 0)) burst_not_positive

-- The loop over the methods.
unfoldable pub check_methods : Std → List Text → List Text → Result RouteError (Unit {0})
unfolding text_eq contains
check_methods std seen [] = ok tt
check_methods std seen (method ∷ rest) = do
  reject (is_empty (std.trim_space method)) method_empty
  reject (not (text_eq (std.to_upper method) method)) method_not_uppercase
  reject (not (std.valid_header_field_name method)) method_invalid
  reject (contains seen method) method_duplicate
  check_methods std (method ∷ seen) rest

-- The loop over the hosts.
unfoldable pub check_hosts : Std → List Text → List Text → Result RouteError (Unit {0})
unfolding validate_hostname contains
check_hosts std seen [] = ok tt
check_hosts std seen (host ∷ rest) = do
  wrap host_invalid (validate_hostname std host)
  reject (contains seen host) host_duplicate
  check_hosts std (host ∷ seen) rest

-- The loop over the header matches.
unfoldable pub check_header_matches :
    Std → List Text → List HeaderMatch → Result RouteError (Unit {0})
check_header_matches std seen [] = ok tt
check_header_matches std seen (m ∷ rest) = do
  wrap header_match (validate_header_match std m)
  reject (contains seen (std.to_lower m.name)) header_match_duplicate
  check_header_matches std (std.to_lower m.name ∷ seen) rest

-- validateErrorResponses
unfoldable pub check_error_responses :
    Std → Route → List (ℤ × ErrorResponse) → Result RouteError (Unit {0})
unfolding validate_error_response
check_error_responses std r [] = ok tt
check_error_responses std r ((code, e) ∷ rest) = do
  reject (not (one_of code (413 ∷ 429 ∷ 502 ∷ 503 ∷ 504 ∷ []))) response_code
  reject (eqz code (pos 429) && not (is_some r.rate_limit)) response_needs_rate_limit
  reject (eqz code (pos 413) && eqz r.max_request_body_bytes (pos 0)) response_needs_body_limit
  reject (one_of code (502 ∷ 503 ∷ 504 ∷ []) && not (is_some r.upstream)) response_needs_upstream
  wrap response_invalid (validate_error_response std e)
  check_error_responses std r rest

-- The checks of the path matcher.
unfoldable pub check_paths : Route → Result RouteError (Unit {0})
unfolding has_prefix has_suffix text_eq
check_paths r = do
  let has_path_prefix = not (is_empty r.path_prefix)
  reject (is_exact r && has_path_prefix) both_paths
  reject (not (is_exact r) && not has_path_prefix) no_path
  reject (has_path_prefix && not (has_prefix r.path_prefix (codes "/"))) prefix_relative
  reject
      (has_path_prefix
        && has_suffix r.path_prefix (codes "/")
        && not (text_eq r.path_prefix (codes "/")))
      prefix_trailing
  reject (is_exact r && not (has_prefix r.path_exact (codes "/"))) exact_relative
  reject (r.strip_path_prefix && not has_path_prefix) strip_without_prefix

-- Route.validate
unfoldable pub validate : Std → Route → Result RouteError (Unit {0})
validate std r = do
  reject (is_empty (std.trim_space r.name)) name_empty
  wrap action (validate_action std r)
  check_paths r
  check_methods std [] r.methods
  check_hosts std [] r.hosts
  reject (ltz r.request_timeout (pos 0)) timeout_negative
  reject (ltz r.max_request_body_bytes (pos 0)) body_limit_negative
  when_some r.request_headers
      λ p. wrap request_headers_policy (validate_policy std (is_reserved_request_header std) p)
  when_some r.response_headers
      λ p. wrap response_headers_policy (validate_policy std (is_reserved_response_header std) p)
  check_error_responses std r r.error_responses
  when_some r.rate_limit λ p. wrap rate_limit_policy (validate_rate_limit p)
  check_header_matches std [] r.header_matches
