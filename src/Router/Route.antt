-- ===== src/Router/Route.antt =====
-- The route of internal/router/route.go and what internal/router/upstream.go adds to it. An absent
-- pointer is `none`, and durations are integers of nanoseconds.
use dev_gate.Common.{Bool, List, [], ◌∷◌, Option, Text, ℤ}
use dev_gate.Router.Std.{Url, Float}

pub data LoadBalancingPolicy : Type 0 where
  round_robin random least_requests : LoadBalancingPolicy
  other_policy : Text → LoadBalancingPolicy

pub record DnsDiscoveryPolicy : Type 0 where
  pub refresh_interval : ℤ
  pub lookup_timeout : ℤ

pub record ActiveHealthCheckPolicy : Type 0 where
  pub path : Text
  pub interval : ℤ
  pub timeout : ℤ
  pub healthy_threshold : ℤ
  pub unhealthy_threshold : ℤ
  pub max_concurrent_probes : ℤ

pub record PassiveHealthCheckPolicy : Type 0 where
  pub consecutive_failures : ℤ
  pub ejection_duration : ℤ

pub record Upstream : Type 0 where
  pub dns_discovery : Option DnsDiscoveryPolicy
  pub load_balancing : LoadBalancingPolicy
  pub endpoints : List Url
  pub active_health_check : Option ActiveHealthCheckPolicy
  pub passive_health_check : Option PassiveHealthCheckPolicy

-- A map is the list of its entries, in the order of its iteration.
pub record HeaderTransformPolicy : Type 0 where
  pub set : List (Text × Text)
  pub remove : List Text

pub record DirectResponse : Type 0 where
  pub status_code : ℤ
  pub body : Text

pub record Redirect : Type 0 where
  pub status_code : ℤ
  pub location : Text

pub record ErrorResponse : Type 0 where
  pub body : Text
  pub headers : List (Text × Text)

pub record RateLimitPolicy : Type 0 where
  pub requests_per_second : Float
  pub burst : ℤ

pub record HeaderMatch : Type 0 where
  pub name : Text
  pub exact : Text

pub record Route : Type 0 where
  pub name : Text
  pub protocol : Text
  pub path_prefix : Text
  pub path_exact : Text
  pub header_matches : List HeaderMatch
  pub methods : List Text
  pub hosts : List Text
  pub priority : ℤ
  pub upstream : Option Upstream
  pub direct_response : Option DirectResponse
  pub redirect : Option Redirect
  pub error_responses : List (ℤ × ErrorResponse)
  pub request_headers : Option HeaderTransformPolicy
  pub response_headers : Option HeaderTransformPolicy
  pub rate_limit : Option RateLimitPolicy
  pub strip_path_prefix : Bool
  pub request_timeout : ℤ
  pub max_request_body_bytes : ℤ

-- HeaderTransformPolicy.Apply, over the header's Del and Set.
module _ {H : Type 0} (del : H → Text → H) (set_header : H → Text → Text → H) where
  unfoldable pub remove_each : List Text → H → H
  remove_each [] header = header
  remove_each (name ∷ names) header = remove_each names (del header name)

  unfoldable pub set_each : List (Text × Text) → H → H
  set_each [] header = header
  set_each ((name, value) ∷ entries) header = set_each entries (set_header header name value)

  unfoldable pub apply_policy : HeaderTransformPolicy → H → H
  unfolding remove_each set_each
  apply_policy p header = set_each p.set (remove_each p.remove header)
