-- ===== src/Command/Assembly.antt =====
-- newRouteRuntime of cmd/devgate/handlers.go, a route at a time, with newRouteDNSWatcher of
-- cmd/devgate/dns_discovery.go: the constructors that it calls, in its order. The picker over the
-- healthy endpoints and the coordinator are in the modules of these.
use dev_gate.Common.{
  ℕ, true, false, not, ◌&&◌, List, [], Option, none, some, String, if◌then◌else◌, map, length, ltb,
  ◌==◌, Text, codes, text_eq, ℤ, pos, eqz, Result, err, ok, ◌>>=◌, ◌>>◌, reject, fail_as,
}
use dev_gate.Router.Std.{Std, Url}
use dev_gate.Router.Route.{
  DirectResponse, ErrorResponse, Redirect, Route, Upstream, round_robin, random, least_requests,
  other_policy,
}
use dev_gate.Router.Validation.Actions.{action_count}
use dev_gate.Upstream.HealthTracker.{HealthTracker}
use dev_gate.Upstream.HealthTracker
use dev_gate.Upstream.PassiveHealth.{PassiveHealthTracker}
use dev_gate.Upstream.PassiveHealth
use dev_gate.Upstream.HealthChecker.{HealthChecker}
use dev_gate.Upstream.HealthChecker
use dev_gate.Upstream.RoundRobin.{RoundRobin}
use dev_gate.Upstream.RoundRobin
use dev_gate.Upstream.Random.{Random}
use dev_gate.Upstream.Random as Randomly
use dev_gate.Upstream.LeastRequests.{LeastRequests, Endpoint}
use dev_gate.Upstream.LeastRequests
use dev_gate.Upstream.EndpointMembership.{EndpointMembership}
use dev_gate.Upstream.EndpointMembership
use dev_gate.Upstream.Picker.{ReplaceablePicker}
use dev_gate.Upstream.EndpointCoordinator.{EndpointCoordinator, refresh_picker, apply}
use dev_gate.Command.Picking.{Picker, round_robin_picker, random_picker, least_requests_picker}
use dev_gate.Discovery.Watcher.{DnsWatcher}
use dev_gate.Discovery.Watcher
use dev_gate.Proxy.CircuitBreaker.{CircuitBreaker}
use dev_gate.Proxy.CircuitBreaker
use dev_gate.Middleware.ErrorResponse.{Response}
use dev_gate.Middleware.ErrorResponse
use dev_gate.Middleware.Limits.{Local, new_body_limit, new_timeout, new_local}
use dev_gate.Middleware.Responses.{new_direct, new_redirect}

pub data AssemblyError : Type 0 where
  no_action many_actions responder_failed picker_failed policy_unsupported : AssemblyError
  active_failed passive_failed checker_failed endpoint_count watcher_failed : AssemblyError
  breaker_failed body_limit_failed timeout_failed grpc_unsupported : AssemblyError
  protocol_unsupported direct_failed redirect_failed rate_failed : AssemblyError
  aware_picker_failed discovery_failed panicked : AssemblyError

pub record Proxied (S : Type 0) : Type 0 where
  pub shared : EndpointCoordinator Url (Picker S)
  pub checker : Option HealthChecker
  pub watcher : Option DnsWatcher
  pub breaker : CircuitBreaker
  pub stripped : Option Text
  pub body_limit : Option ℤ
  pub timeout : Option ℤ

pub data RouteHandler (S : Type 0) : Type 0 where
  proxied : Proxied S → RouteHandler S
  direct : DirectResponse → RouteHandler S
  redirecting : Redirect → RouteHandler S

pub record Assembled (S : Type 0) : Type 0 where
  pub responses : List (ℤ × Response)
  pub handler : RouteHandler S
  pub limiter : Option Local

abbrev pub error_response_from_route : ℤ × ErrorResponse → ℤ × Response
error_response_from_route (code, r) = (code, record { body = r.body; headers = r.headers })

module _ (url_string : Url → String) where
  unfoldable pub new_route_active_health_tracker :
      Upstream → Result AssemblyError (Option (HealthTracker Url))
  new_route_active_health_tracker u = elim u.active_health_check [
    | none ↦ ok none
    | some p ↦ do
      t ←
          fail_as active_failed
            (HealthTracker.new url_string u.endpoints p.healthy_threshold p.unhealthy_threshold)
      ok (some t)
  ]

  unfoldable pub new_route_passive_health_tracker :
      Upstream → Result AssemblyError (Option (PassiveHealthTracker Url))
  new_route_passive_health_tracker u = elim u.passive_health_check [
    | none ↦ ok none
    | some p ↦ do
      t ←
          fail_as passive_failed
            (PassiveHealth.new url_string u.endpoints p.consecutive_failures p.ejection_duration)
      ok (some t)
  ]

-- newRouteActiveHealthChecker, which is called where there is a tracker.
unfoldable pub new_route_active_health_checker :
    Upstream → Result AssemblyError (Option HealthChecker)
new_route_active_health_checker u = elim u.active_health_check [
  | none ↦ ok none
  | some p ↦ do
    c ←
        fail_as checker_failed
          (HealthChecker.new false false p.interval p.timeout p.path p.max_concurrent_probes false)
    ok (some c)
]

unfoldable pub new_route_dns_watcher : Upstream → Result AssemblyError (Option DnsWatcher)
new_route_dns_watcher u = elim u.dns_discovery [
  | none ↦ ok none
  | some d ↦ do
    reject (not (length u.endpoints == 1)) endpoint_count
    w ← fail_as watcher_failed (Watcher.new false false false d.refresh_interval d.lookup_timeout)
    ok (some w)
]

-- The wrappers by the route's limits, where they are not 0.
unfoldable pub new_route_body_limit : Route → Result AssemblyError (Option ℤ)
new_route_body_limit r = if eqz r.max_request_body_bytes (pos 0) then ok none else (do
  limit ← fail_as body_limit_failed (new_body_limit false r.max_request_body_bytes)
  ok (some limit))

unfoldable pub new_route_timeout : Route → Result AssemblyError (Option ℤ)
new_route_timeout r = if eqz r.request_timeout (pos 0) then ok none else (do
  timeout ← fail_as timeout_failed (new_timeout false r.request_timeout)
  ok (some timeout))

unfoldable pub new_route_limiter : Route → Result AssemblyError (Option Local)
new_route_limiter r = elim r.rate_limit [
  | none ↦ ok none
  | some p ↦ do l ← fail_as rate_failed (new_local p.requests_per_second p.burst); ok (some l)
]

abbrev pub or_failed {ℓ} : {A : Type ℓ} → Option A → Result AssemblyError A
or_failed none = err picker_failed
or_failed (some a) = ok a

module _ {R P : Type 0} (url_string : Url → String) (pickers : ReplaceablePicker Url R P) where
  -- The result of a refresh, where `none` is a panic.
  abbrev pub refreshed :
      {A E : Type 0} → AssemblyError → Option (A × Option E) → Result AssemblyError A
  refreshed e none = err panicked
  refreshed e (some (a, none)) = ok a
  refreshed e (some (a, some failed)) = err e

  -- The picker refreshes itself before it is returned; its source reads what it shares with it.
  unfoldable pub new_route_health_aware_picker :
      P
      → EndpointMembership Url
      → Option (HealthTracker Url)
      → Option (PassiveHealthTracker Url)
      → ℕ
      → Result AssemblyError (EndpointCoordinator Url P)
  new_route_health_aware_picker base membership active passive now = refreshed aware_picker_failed (
      refresh_picker url_string pickers
        (record {
          membership = membership;
          picker = record { picker = base; available = false };
          active_tracker = active;
          passive_tracker = passive;
        })
        now)

  -- NewEndpointCoordinator, and Apply of no endpoints.
  unfoldable pub new_route_coordinator :
      Upstream → EndpointCoordinator Url P → ℕ → Result AssemblyError (EndpointCoordinator Url P)
  new_route_coordinator u c now = elim u.dns_discovery [
    | none ↦ ok c
    | some d ↦ refreshed discovery_failed (apply url_string pickers c [] now)
  ]

module _ {S : Type 0} (url_string : Url → String) (source : S) (initial : ℕ → Endpoint Url) where
  unfoldable pub new_picker : Upstream → Result AssemblyError (Picker S)
  new_picker u = elim u.load_balancing [
    | round_robin ↦ do p ← or_failed (RoundRobin.new u.endpoints); ok (round_robin_picker p)
    | random ↦ do p ← or_failed (Randomly.new source u.endpoints); ok (random_picker p)
    | least_requests ↦ do
      p ← or_failed (LeastRequests.new url_string initial u.endpoints)
      ok (least_requests_picker p)
    | other_policy name ↦ err policy_unsupported
  ]

-- The source of random numbers, the memory that a least-requests picker starts from, and the
-- settings of the circuit breaker.
module _ {R S : Type 0} (url_string : Url → String) (source : S) (initial : ℕ → Endpoint Url)
    (pickers : ReplaceablePicker Url R (Picker S)) (now later : ℕ) where
  unfoldable pub new_proxied : ℤ → ℤ → Route → Upstream → Result AssemblyError (Proxied S)
  unfolding new_picker new_route_health_aware_picker new_route_coordinator text_eq
  new_proxied failure_threshold open_timeout r u = do
    picker ← new_picker url_string source initial u
    active ← new_route_active_health_tracker url_string u
    passive ← new_route_passive_health_tracker url_string u
    aware ←
        new_route_health_aware_picker url_string pickers picker (EndpointMembership.new u.endpoints)
          active passive now
    checker ← new_route_active_health_checker u
    shared ← new_route_coordinator url_string pickers u aware later
    watcher ← new_route_dns_watcher u
    breaker ←
        fail_as breaker_failed
          (CircuitBreaker.new (some true) failure_threshold open_timeout (some true))
    limit ← new_route_body_limit r
    timeout ← new_route_timeout r
    ok (record {
      shared = shared;
      checker = checker;
      watcher = watcher;
      breaker = breaker;
      stripped =
          if not (text_eq r.path_prefix (codes "/")) && r.strip_path_prefix
          then some r.path_prefix
          else none;
      body_limit = limit;
      timeout = timeout;
    })

  -- The switch on the action.
  unfoldable pub new_handler : ℤ → ℤ → Route → Result AssemblyError (RouteHandler S)
  unfolding new_proxied text_eq
  new_handler failure_threshold open_timeout r = elim r.upstream [
    | some u ↦
        if text_eq r.protocol (codes "http")
        then (do p ← new_proxied failure_threshold open_timeout r u; ok (proxied p))
        else if text_eq r.protocol (codes "grpc")
        then err grpc_unsupported
        else err protocol_unsupported
    | none ↦ elim r.direct_response [
      | some d ↦ do h ← fail_as direct_failed (new_direct d.status_code d.body); ok (direct h)
      | none ↦ elim r.redirect [
        | some d ↦ do
          h ← fail_as redirect_failed (new_redirect d.status_code d.location)
          ok (redirecting h)
        | none ↦ err no_action
      ]
    ]
  ]

  -- The body of the loop.
  unfoldable pub assemble : Std → ℤ → ℤ → Route → Result AssemblyError (Assembled S)
  unfolding new_handler action_count
  assemble std failure_threshold open_timeout r = do
    reject (action_count r == 0) no_action
    reject (ltb 1 (action_count r)) many_actions
    responses ←
        fail_as responder_failed
          (ErrorResponse.new std (map error_response_from_route r.error_responses))
    handler ← new_handler failure_threshold open_timeout r
    limiter ← new_route_limiter r
    ok (record { responses = responses; handler = handler; limiter = limiter })
