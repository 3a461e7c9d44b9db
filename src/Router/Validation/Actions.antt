-- ===== src/Router/Validation/Actions.antt =====
-- The action of a route in internal/router/route.go: an upstream, a direct response or a redirect.
use dev_gate.Common.{
  is_empty, ℕ, ◌+◌, Bool, true, false, not, ◌&&◌, ◌||◌, [], ◌∷◌, Option, none, some, codes, text_eq,
  ◌==◌, ltb, if◌then◌else◌, is_some, pos, ltz, eqz, one_of, Result, err, ok, ◌>>◌, reject, wrap,
  when_some,
}
use dev_gate.Router.Std.{Std, Url}
use dev_gate.Router.Route.{Route, DirectResponse, Redirect}
use dev_gate.Router.Validation.Headers.{modifies}
use dev_gate.Router.Validation.Upstreams.{UpstreamError, validate_upstream}

pub data ResponseError : Type 0 where
  direct_status direct_body : ResponseError

pub data RedirectError : Type 0 where
  redirect_status location_empty location_value location_parse : RedirectError
  location_scheme location_host : RedirectError

pub data ActionError : Type 0 where
  no_action multiple_actions unsupported_protocol : ActionError
  upstream_validation : UpstreamError → ActionError
  protocol_not_supported request_headers_not_supported strip_not_supported : ActionError
  timeout_not_supported body_limit_not_supported location_modified : ActionError
  direct_validation : ResponseError → ActionError
  redirect_validation : RedirectError → ActionError

-- DirectResponse.validate
unfoldable pub validate_direct : DirectResponse → Result ResponseError (Unit {0})
validate_direct d = do
  reject (ltz d.status_code (pos 200) || ltz (pos 599) d.status_code) direct_status
  reject (not (is_empty d.body) && one_of d.status_code (204 ∷ 205 ∷ 304 ∷ [])) direct_body

abbrev one_if : Bool → ℕ
one_if true = 1
one_if false = 0

unfoldable pub action_count : Route → ℕ
action_count r =
    one_if (is_some r.upstream) + one_if (is_some r.direct_response) + one_if (is_some r.redirect)

module _ (std : Std) where
  -- `IsAbs` is `Scheme != ""`.
  check_location : Option Url → Result RedirectError (Unit {0})
  unfolding text_eq
  check_location none = err location_parse
  check_location (some u) = if is_empty u.scheme then ok tt else (do
    reject (not (text_eq u.scheme (codes "http")) && not (text_eq u.scheme (codes "https")))
        location_scheme
    reject (is_empty u.host) location_host)

  -- Redirect.validate
  unfoldable pub validate_redirect : Redirect → Result RedirectError (Unit {0})
  unfolding check_location
  validate_redirect r = do
    reject (not (one_of r.status_code (301 ∷ 302 ∷ 303 ∷ 307 ∷ 308 ∷ []))) redirect_status
    reject (is_empty (std.trim_space r.location)) location_empty
    reject (not (std.valid_header_field_value r.location)) location_value
    check_location (std.parse_url r.location)

  unfoldable pub check_upstream_action : Route → Result ActionError (Unit {0})
  unfolding validate_upstream text_eq
  check_upstream_action r = when_some r.upstream λ u. do
    reject (not (text_eq r.protocol (codes "http")) && not (text_eq r.protocol (codes "grpc")))
        unsupported_protocol
    wrap upstream_validation (validate_upstream std u)

  -- What neither a direct response nor a redirect supports.
  unfoldable pub check_local_action : Route → Result ActionError (Unit {0})
  check_local_action r = do
    reject (not (is_empty r.protocol)) protocol_not_supported
    reject (is_some r.request_headers) request_headers_not_supported
    reject r.strip_path_prefix strip_not_supported
    reject (not (eqz r.request_timeout (pos 0))) timeout_not_supported
    reject (not (eqz r.max_request_body_bytes (pos 0))) body_limit_not_supported

  unfoldable pub check_direct_action : Route → Result ActionError (Unit {0})
  unfolding check_local_action validate_direct
  check_direct_action r =
      when_some r.direct_response
        λ d. do check_local_action r; wrap direct_validation (validate_direct d)

  unfoldable pub check_redirect_action : Route → Result ActionError (Unit {0})
  unfolding check_local_action validate_redirect modifies
  check_redirect_action r = when_some r.redirect λ d. do
    check_local_action r
    when_some r.response_headers λ p. reject (modifies std p (codes "location")) location_modified
    wrap redirect_validation (validate_redirect d)

  unfoldable pub validate_action : Route → Result ActionError (Unit {0})
  unfolding action_count check_upstream_action check_direct_action check_redirect_action
  validate_action r = do
    reject (action_count r == 0) no_action
    reject (ltb 1 (action_count r)) multiple_actions
    check_upstream_action r
    check_direct_action r
    check_redirect_action r
