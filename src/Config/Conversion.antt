-- ===== src/Config/Conversion.antt =====
-- cmd/devgate/routes.go. The copies that it makes of lists and maps are these themselves.
use mathlib.Core.Option
use dev_gate.Common.{
  ℕ, ◌+◌, not, List, [], ◌∷◌, Option, none, some, if◌then◌else◌, is_some, is_empty, map, Text, ℤ,
  codes, text_eq, Result, err, ok, ◌>>=◌,
}
use dev_gate.Router.Std.{Std, Url}
use dev_gate.Router.Route.{
  ActiveHealthCheckPolicy, DirectResponse, DnsDiscoveryPolicy, ErrorResponse, HeaderMatch,
  HeaderTransformPolicy, LoadBalancingPolicy, PassiveHealthCheckPolicy, RateLimitPolicy, Redirect,
  Route, Upstream, round_robin, random, least_requests,
}
use dev_gate.Config.Route.{
  ActiveHealthCheckConfig, DirectResponseConfig, DnsUpstreamDiscoveryConfig, ErrorResponseConfig,
  HeaderMatchConfig, HeaderTransformConfig, PassiveHealthCheckConfig, RateLimitConfig,
  RedirectConfig, RouteConfig, UpstreamConfig, UpstreamDiscoveryConfig, UpstreamEndpointConfig,
}

pub data ConversionError : Type 0 where
  both_upstreams upstream_url_invalid no_discovery policy_invalid : ConversionError
  many_discoveries no_source dns_url_invalid : ConversionError
  endpoint_invalid : ℕ → ConversionError

abbrev pub header_transform_policy_from_config : HeaderTransformConfig → HeaderTransformPolicy
header_transform_policy_from_config c = record { set = c.set; remove = c.remove }

abbrev pub header_match_from_config : HeaderMatchConfig → HeaderMatch
header_match_from_config c = record { name = c.name; exact = c.exact }

abbrev pub active_health_check_policy_from_config :
    ActiveHealthCheckConfig → ActiveHealthCheckPolicy
active_health_check_policy_from_config c = record {
  path = c.path;
  interval = c.interval;
  timeout = c.timeout;
  healthy_threshold = c.healthy_threshold;
  unhealthy_threshold = c.unhealthy_threshold;
  max_concurrent_probes = c.max_concurrent_probes;
}

abbrev pub passive_health_check_policy_from_config :
    PassiveHealthCheckConfig → PassiveHealthCheckPolicy
passive_health_check_policy_from_config c = record {
  consecutive_failures = c.consecutive_failures;
  ejection_duration = c.ejection_duration;
}

abbrev pub error_response_from_config : ℤ × ErrorResponseConfig → ℤ × ErrorResponse
error_response_from_config (code, c) = (code, record { body = c.body; headers = c.headers })

abbrev pub direct_response_from_config : DirectResponseConfig → DirectResponse
direct_response_from_config c = record { status_code = c.status_code; body = c.body }

abbrev pub redirect_from_config : RedirectConfig → Redirect
redirect_from_config c = record { status_code = c.status_code; location = c.location }

abbrev pub rate_limit_from_config : RateLimitConfig → RateLimitPolicy
rate_limit_from_config c = record { requests_per_second = c.requests_per_second; burst = c.burst }

-- The switch on the policy's name.
unfoldable pub load_balancing_from_config : Text → Result ConversionError LoadBalancingPolicy
load_balancing_from_config name =
    if is_empty name
    then ok round_robin
    else if text_eq name (codes "round_robin")
    then ok round_robin
    else if text_eq name (codes "random")
    then ok random
    else if text_eq name (codes "least_requests")
    then ok least_requests
    else err policy_invalid

module _ (std : Std) where
  -- The loop over static endpoints, from index `i`.
  unfoldable pub static_endpoints :
      ℕ → List UpstreamEndpointConfig → Result ConversionError (List Url)
  static_endpoints i [] = ok []
  static_endpoints i (c ∷ cs) = elim (std.parse_url c.url) [
    | none ↦ err (endpoint_invalid i)
    | some u ↦ do us ← static_endpoints (i + 1) cs; ok (u ∷ us)
  ]

  unfoldable pub dns_source :
      DnsUpstreamDiscoveryConfig → Result ConversionError (Option DnsDiscoveryPolicy × List Url)
  dns_source d = elim (std.parse_url d.url) [
    | none ↦ err dns_url_invalid
    | some u ↦ ok (
      some (record { refresh_interval = d.refresh_interval; lookup_timeout = d.lookup_timeout }),
      u ∷ [],
    )
  ]

  -- The switch on the discovery: the policy of DNS discovery, and the endpoints.
  unfoldable pub discovery_from_config :
      UpstreamDiscoveryConfig → Result ConversionError (Option DnsDiscoveryPolicy × List Url)
  unfolding dns_source
  discovery_from_config d = elim d.dns [
    | none ↦ elim d.static [
      | none ↦ err no_source
      | some s ↦ do us ← static_endpoints 0 s.endpoints; ok (none, us)
    ]
    | some dns ↦ if is_some d.static then err many_discoveries else dns_source dns
  ]

  -- The branch of `upstreamFromConfig` for an upstream.
  unfoldable pub pool_from_config : UpstreamConfig → Result ConversionError Upstream
  unfolding load_balancing_from_config discovery_from_config
  pool_from_config u = elim u.discovery [
    | none ↦ err no_discovery
    | some d ↦ do
      policy ← load_balancing_from_config u.load_balancing
      source ← discovery_from_config d
      ok (record {
        dns_discovery = source.0;
        load_balancing = policy;
        endpoints = source.1;
        active_health_check =
            Option.map active_health_check_policy_from_config u.active_health_check;
        passive_health_check =
            Option.map passive_health_check_policy_from_config u.passive_health_check;
      })
  ]

  unfoldable pub url_from_config : Text → Result ConversionError Upstream
  url_from_config upstream_url = elim (std.parse_url upstream_url) [
    | none ↦ err upstream_url_invalid
    | some u ↦ ok (record {
      dns_discovery = none;
      load_balancing = round_robin;
      endpoints = u ∷ [];
      active_health_check = none;
      passive_health_check = none;
    })
  ]

  unfoldable pub upstream_from_config : RouteConfig → Result ConversionError (Option Upstream)
  unfolding pool_from_config url_from_config
  upstream_from_config r = elim r.upstream [
    | none ↦
        if is_empty r.upstream_url
        then ok none
        else (do u ← url_from_config r.upstream_url; ok (some u))
    | some pool ↦
        if not (is_empty r.upstream_url)
        then err both_upstreams
        else (do u ← pool_from_config pool; ok (some u))
  ]

  -- The body of the loop of `routesFromConfig`.
  unfoldable pub route_from_config : RouteConfig → Result ConversionError Route
  unfolding upstream_from_config
  route_from_config r = do
    upstream ← upstream_from_config r
    ok (record {
      name = r.name;
      protocol = r.protocol;
      path_prefix = r.path_prefix;
      path_exact = r.path_exact;
      header_matches = map header_match_from_config r.header_matches;
      methods = r.methods;
      hosts = r.hosts;
      priority = r.priority;
      upstream = upstream;
      direct_response = Option.map direct_response_from_config r.direct_response;
      redirect = Option.map redirect_from_config r.redirect;
      error_responses = map error_response_from_config r.error_responses;
      request_headers = Option.map header_transform_policy_from_config r.request_headers;
      response_headers = Option.map header_transform_policy_from_config r.response_headers;
      rate_limit = Option.map rate_limit_from_config r.rate_limit;
      strip_path_prefix = r.strip_path_prefix;
      request_timeout = r.request_timeout;
      max_request_body_bytes = r.max_request_body_bytes;
    })

  unfoldable pub routes_from_config : List RouteConfig → Result ConversionError (List Route)
  routes_from_config [] = ok []
  routes_from_config (c ∷ cs) = do
    route ← route_from_config c
    routes ← routes_from_config cs
    ok (route ∷ routes)
