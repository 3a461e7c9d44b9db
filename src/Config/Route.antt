-- ===== src/Config/Route.antt =====
-- internal/config/route.go. An absent pointer is `none`, a map is the list of its entries, and
-- durations are integers of nanoseconds.
use dev_gate.Common.{Bool, List, Option, Text, ℤ}
use dev_gate.Router.Std.{Float}

pub record HeaderTransformConfig : Type 0 where
  pub set : List (Text × Text)
  pub remove : List Text

pub record RateLimitConfig : Type 0 where
  pub requests_per_second : Float
  pub burst : ℤ

pub record DirectResponseConfig : Type 0 where
  pub status_code : ℤ
  pub body : Text

pub record RedirectConfig : Type 0 where
  pub status_code : ℤ
  pub location : Text

pub record ErrorResponseConfig : Type 0 where
  pub body : Text
  pub headers : List (Text × Text)

pub record HeaderMatchConfig : Type 0 where
  pub name : Text
  pub exact : Text

pub record UpstreamEndpointConfig : Type 0 where
  pub url : Text

pub record StaticUpstreamDiscoveryConfig : Type 0 where
  pub endpoints : List UpstreamEndpointConfig

pub record DnsUpstreamDiscoveryConfig : Type 0 where
  pub url : Text
  pub refresh_interval : ℤ
  pub lookup_timeout : ℤ

pub record UpstreamDiscoveryConfig : Type 0 where
  pub static : Option StaticUpstreamDiscoveryConfig
  pub dns : Option DnsUpstreamDiscoveryConfig

pub record ActiveHealthCheckConfig : Type 0 where
  pub path : Text
  pub interval : ℤ
  pub timeout : ℤ
  pub healthy_threshold : ℤ
  pub unhealthy_threshold : ℤ
  pub max_concurrent_probes : ℤ

pub record PassiveHealthCheckConfig : Type 0 where
  pub consecutive_failures : ℤ
  pub ejection_duration : ℤ

pub record UpstreamConfig : Type 0 where
  pub load_balancing : Text
  pub discovery : Option UpstreamDiscoveryConfig
  pub active_health_check : Option ActiveHealthCheckConfig
  pub passive_health_check : Option PassiveHealthCheckConfig

pub record RouteConfig : Type 0 where
  pub name : Text
  pub protocol : Text
  pub path_prefix : Text
  pub path_exact : Text
  pub header_matches : List HeaderMatchConfig
  pub methods : List Text
  pub hosts : List Text
  pub priority : ℤ
  pub upstream_url : Text
  pub upstream : Option UpstreamConfig
  pub direct_response : Option DirectResponseConfig
  pub redirect : Option RedirectConfig
  pub error_responses : List (ℤ × ErrorResponseConfig)
  pub rate_limit : Option RateLimitConfig
  pub strip_path_prefix : Bool
  pub request_timeout : ℤ
  pub max_request_body_bytes : ℤ
  pub request_headers : Option HeaderTransformConfig
  pub response_headers : Option HeaderTransformConfig

pub record FileConfig : Type 0 where
  pub routes : List RouteConfig
  pub error_responses : List (ℤ × ErrorResponseConfig)
