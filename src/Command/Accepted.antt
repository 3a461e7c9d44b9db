-- ===== src/Command/Accepted.antt =====
-- What the assembly of cmd/devgate makes of routes that internal/router accepts.
mod Upstreams
mod Shared
mod Parts
mod Responses
mod Actions
use Upstreams.{active_lem, passive_lem, checker_lem, watcher_lem, picker_lem}
use Parts.{body_limit_lem, timeout_lem, limiter_lem, accepted_responses, accepted_action}
use Responses.{responses_lem}
use Actions.{
  direct_lem, redirect_lem, accepted_upstream, accepted_direct, accepted_redirect, accepted_count,
  some_action,
}
use mathlib.Core.List.{Memᴰ}
use dev_gate.Common.{
  ℕ, ◌≡◌, refl, ◌⊎◌, inl, inr, Bool, true, false, not, List, [], ◌∷◌, Option, none, some, String,
  arith, Text, codes, text_eq, ℤ, pos, lez, ltz, length, is_some, is_empty, Result, err, ok,
  Option-cases, Bool-cases, map, when_some, wrap, Result-cases, subst, sym, ltb, reject, ◌>>◌,
  ◌>>=◌, contains, select, if◌then◌else◌, ◌&&◌, one_of, ◌||◌, has_prefix, eqz, ◌==◌, pos_part,
}
use dev_gate.Router.Std.{Std, Url}
use dev_gate.Router.Route.{
  DirectResponse, Redirect, ActiveHealthCheckPolicy, PassiveHealthCheckPolicy, DnsDiscoveryPolicy,
  ErrorResponse, LoadBalancingPolicy, Route, Upstream, round_robin, random, least_requests,
  other_policy,
}
use dev_gate.Router.Validation.Upstreams.{
  validate_upstream, validate_active, validate_passive, check_active, check_passive, check_dns,
  check_endpoints, is_supported,
}
use dev_gate.Router.Validation.Actions.{
  check_local_action, direct_validation, redirect_validation, location_modified, action_count,
  validate_action, validate_direct, validate_redirect, check_upstream_action, check_direct_action,
  check_redirect_action,
}
use dev_gate.Router.Validation.Headers.{
  modifies, HeaderError, invalid_name, invalid_value, reserved_header, duplicate_name,
  check_response_headers, is_reserved_response_header, validate_error_response,
}
use dev_gate.Router.Construction.{new_loop}
use dev_gate.Router.Construction
use dev_gate.Router.Acceptance.{accepted_valid}
use dev_gate.Router.Validation.{check_error_responses, validate, validate_rate_limit}
use dev_gate.Middleware.ErrorResponse
use dev_gate.Middleware.Responses.{new_direct, new_redirect}
use dev_gate.Middleware.Limits.{Local, new_body_limit, new_timeout, new_local}
use dev_gate.Upstream.HealthTracker.{HealthTracker}
use dev_gate.Upstream.HealthTracker
use dev_gate.Upstream.HealthTracker.Laws.{Inv, new-ok, new-Inv}
use dev_gate.Upstream.PassiveHealth.{PassiveHealthTracker}
use dev_gate.Upstream.PassiveHealth
use dev_gate.Upstream.EndpointCoordinator.Reading.{ActiveInv}
use dev_gate.Upstream.HealthChecker.{HealthChecker}
use dev_gate.Upstream.HealthChecker
use dev_gate.Upstream.LeastRequests.{Endpoint}
use dev_gate.Upstream.LeastRequests
use dev_gate.Upstream.RoundRobin
use dev_gate.Upstream.Random as Randomly
use dev_gate.Discovery.Watcher.{DnsWatcher}
use dev_gate.Discovery.Watcher
use dev_gate.Proxy.CircuitBreaker.{CircuitBreaker}
use dev_gate.Proxy.CircuitBreaker
use Shared.{aware_lem, coordinator_lem, first_members}
use dev_gate.Upstream.Picker.{ReplaceablePicker}
use dev_gate.Upstream.HealthAwarePicker.{acquire, IsAnswer}
use dev_gate.Upstream.EndpointCoordinator.Reading.{both_allow}
use dev_gate.Command.Picking.{Picker}
use dev_gate.Command.Assembly.{
  grpc_unsupported, proxied, direct, redirecting, AssemblyError, Assembled,
  error_response_from_route, Proxied, RouteHandler, assemble, new_handler, new_picker, new_proxied,
  new_route_active_health_checker, new_route_active_health_tracker, new_route_body_limit,
  new_route_dns_watcher, new_route_limiter, new_route_passive_health_tracker, new_route_timeout,
}

breaker_lem :
    (failure_threshold open_timeout : ℤ)
    → ltz failure_threshold (pos 1) ≡ false
    → lez open_timeout (pos 0) ≡ false
    → (b : CircuitBreaker) × (CircuitBreaker.new
          (some true)
          failure_threshold
          open_timeout
          (some true)
        ≡ ok b)
unfolding CircuitBreaker.new
breaker_lem failure_threshold open_timeout ft ot = rw (ft, ot, CircuitBreaker.new) (_, refl)

-- A result that is good, or the refusal of a route for gRPC.
abbrev pub IsHandled : {A : Type 0} → (A → Type 0) → Route → Result AssemblyError A → Type 0
IsHandled {A} good r result =
    ((a : A) × (result ≡ ok a) × good a)
    ⊎ ((result ≡ err grpc_unsupported) × (text_eq r.protocol (codes "grpc") ≡ true))

module _ {R S : Type 0} (url_string : Url → String) (pickers : ReplaceablePicker Url R (Picker S))
    (now : ℕ) where
  -- The first request is answered from the configured endpoints that the new trackers allow, and is
  -- refused where the endpoints are still to be discovered.
  abbrev pub Starts : Upstream → Proxied S → Type 0
  Starts u p =
      (active : Option (HealthTracker Url)) × (passive : Option (PassiveHealthTracker Url))
      × (new_route_active_health_tracker url_string u ≡ ok active)
      × (new_route_passive_health_tracker url_string u ≡ ok passive)
      × IsAnswer pickers
          (first_members url_string pickers u
            (select (both_allow url_string active passive now) u.endpoints))
          (acquire pickers p.shared.picker).1

  -- The handler is that of the route's action.
  abbrev pub Handles : Route → RouteHandler S → Type 0
  Handles r (proxied p) = (u : Upstream) × (r.upstream ≡ some u) × Starts u p
  Handles r (direct d) = r.direct_response ≡ some d
  Handles r (redirecting d) = r.redirect ≡ some d

module _ {R S : Type 0} (std : Std) (url_string : Url → String) (source : S)
    (initial : ℕ → Endpoint Url) (pickers : ReplaceablePicker Url R (Picker S)) (now later : ℕ)
    (failure_threshold open_timeout : ℤ) (ft : ltz failure_threshold (pos 1) ≡ false)
    (ot : lez open_timeout (pos 0) ≡ false) (r : Route) (valid : validate std r ≡ ok tt) where
  proxied_lem :
      (u : Upstream)
      → validate_upstream std u ≡ ok tt
      → (p : Proxied S) × (new_proxied url_string source initial pickers now later failure_threshold
            open_timeout r u
          ≡ ok p)
        × Starts url_string pickers now u p
  unfolding new_proxied
  proxied_lem u fine =
      let (picker, e₁) = picker_lem std url_string source initial u fine in
      let (active, e₂, inv) = active_lem std url_string u fine in
      let (passive, e₃) = passive_lem std url_string u fine in
      let (aware, e₄, inv', answer) =
        aware_lem url_string pickers picker u.endpoints active passive now inv in
      let (checker, e₅) = checker_lem std url_string u fine in
      let (shared, e₆, answer') = coordinator_lem url_string pickers u aware _ later inv' answer in
      let (watcher, e₇) = watcher_lem std url_string u fine in
      let (breaker, e₈) = breaker_lem failure_threshold open_timeout ft ot in
      let (limit, e₉) = body_limit_lem std r valid in
      let (timeout, e₁₀) = timeout_lem std r valid in
      (
        record {
          shared = shared;
          checker = checker;
          watcher = watcher;
          breaker = breaker;
          stripped =
              if not (text_eq r.path_prefix (codes "/")) && r.strip_path_prefix
              then some r.path_prefix
              else none;
          body_limit = limit;
          timeout = timeout;
        },
        rw (e₁, e₂, e₃, e₄, e₅, e₆, e₇, e₈, e₉, e₁₀, new_proxied) refl,
        (active, passive, e₂, e₃, answer'),
      )

  handler_lem :
      IsHandled
        (Handles url_string pickers now r)
        r
        (new_handler url_string source initial pickers now later failure_threshold open_timeout r)
  unfolding new_handler
  handler_lem =
      let action = accepted_action std r valid in
      elim (Option-cases r.upstream) [
        | inr (u, n) ↦
            let (fine, protocol) = accepted_upstream std r u action n in
            let (p, e, starts) = proxied_lem u fine in
            elim (Bool-cases (text_eq r.protocol (codes "http"))) [
              | inl h ↦ inl (proxied p, rw (n, h, e, new_handler) refl, (u, n, starts))
              | inr h ↦ elim protocol [
                | inl h' ↦ absurd (ground (arith, h, h'))
                | inr g ↦ inr (rw (n, h, g, new_handler) refl, g)
              ]
            ]
        | inl n ↦ elim (Option-cases r.direct_response) [
          | inr (d, m) ↦ inl (
            direct d,
            rw (n, m, direct_lem d (accepted_direct std r d action m), new_handler) refl,
            m,
          )
          | inl m ↦
              let (d, k) = some_action r (accepted_count std r action).0 n m in
              inl (
                redirecting d,
                rw (n, m, k, redirect_lem std d (accepted_redirect std r d action k), new_handler)
                    refl,
                k,
              )
        ]
      ]

  assemble_lem :
      IsHandled
        (λ (a : Assembled S). Handles url_string pickers now r a.handler)
        r
        (assemble url_string source initial pickers now later std failure_threshold open_timeout r)
  unfolding assemble ErrorResponse.new
  assemble_lem =
      let (some_, single) = accepted_count std r (accepted_action std r valid) in
      let responses = responses_lem std r r.error_responses (accepted_responses std r valid) in
      let (limiter, l) = limiter_lem std r valid in
      elim handler_lem [
        | inl (h, e, handles) ↦ inl (
          record {
            responses = map error_response_from_route r.error_responses;
            handler = h;
            limiter = limiter;
          },
          rw (some_, single, responses, e, l, assemble) refl,
          handles,
        )
        | inr (e, g) ↦ inr (rw (some_, single, responses, e, assemble) refl, g)
      ]

new_accepts :
    (std : Std) (q : Route) (qs accepted : List Route)
    → Construction.new std (q ∷ qs) ≡ ok accepted
    → (new_loop std [] (q ∷ qs) ≡ ok tt) × (q ∷ qs ≡ accepted)
unfolding Construction.new
new_accepts std q qs accepted e = elim (Result-cases (new_loop std [] (q ∷ qs))) [
  | inl (x, f) ↦ absurd (ground (arith, e, f))
  | inr (u, f) ↦ (f, ground (arith, e, f))
]

pub accepted_same :
    (std : Std) (routes accepted : List Route)
    → Construction.new std routes ≡ ok accepted
    → routes ≡ accepted
unfolding Construction.new
accepted_same std [] accepted e = absurd (ground (arith, e))
accepted_same std (q ∷ qs) accepted e = (new_accepts std q qs accepted e).1

-- With settings that the circuit breaker takes, the assembly of every route of a router that New
-- accepts succeeds, except that a route to an upstream by gRPC is refused. The handler is that of the
-- route's action; that of an upstream is ready: its first request is granted a configured endpoint
-- that the new trackers allow, and is refused just where they allow none, or where the endpoints are
-- still to be discovered.
pub new-assemble :
    {R S : Type 0} (std : Std) (url_string : Url → String) (source : S) (initial : ℕ → Endpoint Url)
    (pickers : ReplaceablePicker Url R (Picker S)) (now later : ℕ)
    (failure_threshold open_timeout : ℤ) (routes accepted : List Route) (r : Route)
    → ltz failure_threshold (pos 1) ≡ false
    → lez open_timeout (pos 0) ≡ false
    → Construction.new std routes ≡ ok accepted
    → Memᴰ r accepted
    → IsHandled
        (λ (a : Assembled S). Handles url_string pickers now r a.handler)
        r
        (assemble url_string source initial pickers now later std failure_threshold open_timeout r)
unfolding Construction.new
new-assemble std url_string source initial pickers now later ft_ ot_ [] accepted r ft ot e m =
    absurd (ground (arith, e))
new-assemble std url_string source initial pickers now later ft_ ot_ (q ∷ qs) accepted r ft ot e m =
    let (loop, same) = new_accepts std q qs accepted e in
    assemble_lem std url_string source initial pickers now later ft_ ot_ ft ot r
      (accepted_valid std [] (q ∷ qs) r loop (subst (λ xs. Memᴰ r xs) (sym same) m))
