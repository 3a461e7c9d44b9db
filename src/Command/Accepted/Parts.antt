-- ===== src/Command/Accepted/Parts.antt =====
-- What cmd/devgate puts around the handler of a route that internal/router has validated.
use dev_gate.Common.{
  ◌≡◌, inl, inr, Option, none, some, arith, ℤ, pos, ok, Option-cases, Bool-cases, eqz,
}
use dev_gate.Router.Std.{Std}
use dev_gate.Router.Route.{Route}
use dev_gate.Router.Validation.Actions.{validate_action}
use dev_gate.Router.Validation.{check_error_responses, validate, validate_rate_limit}
use dev_gate.Middleware.Limits.{Local, new_body_limit, new_timeout, new_local}
use dev_gate.Command.Assembly.{new_route_body_limit, new_route_limiter, new_route_timeout}

-- The parts that any accepted route has.
module _ (std : Std) (r : Route) (valid : validate std r ≡ ok tt) where
  pub body_limit_lem : (o : Option ℤ) × (new_route_body_limit r ≡ ok o)
  unfolding validate new_route_body_limit new_body_limit
  body_limit_lem = elim (Bool-cases (eqz r.max_request_body_bytes (pos 0))) [
    | inl e ↦ (none, ground (arith, e))
    | inr e ↦ (some r.max_request_body_bytes, ground (arith, e, valid))
  ]

  pub timeout_lem : (o : Option ℤ) × (new_route_timeout r ≡ ok o)
  unfolding validate new_route_timeout new_timeout
  timeout_lem = elim (Bool-cases (eqz r.request_timeout (pos 0))) [
    | inl e ↦ (none, ground (arith, e))
    | inr e ↦ (some r.request_timeout, ground (arith, e, valid))
  ]

  pub limiter_lem : (o : Option Local) × (new_route_limiter r ≡ ok o)
  unfolding validate new_route_limiter new_local validate_rate_limit
  limiter_lem = elim (Option-cases r.rate_limit) [
    | inl n ↦ (none, ground (arith, n))
    | inr (p, n) ↦
        (some (record { limit = p.requests_per_second; burst = p.burst }), ground (arith, n, valid))
  ]

  pub accepted_responses : check_error_responses std r r.error_responses ≡ ok tt
  unfolding validate
  accepted_responses = ground (arith, valid)

  pub accepted_action : validate_action std r ≡ ok tt
  unfolding validate
  accepted_action = ground (arith, valid)
