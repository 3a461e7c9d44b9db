-- ===== src/Metrics/Traffic.antt =====
-- internal/metrics/metrics.go, rate_limiter.go and dns_discovery.go, and the observers of the last
-- two. A duration is a number of nanoseconds.
pub mod Requests
pub mod Resolved
use dev_gate.Common.{ℕ, List, [], ◌∷◌, Option, none, some, String}
use dev_gate.Discovery.Watcher.{Refreshed}
use dev_gate.Metrics.Prometheus.{Vectors}

pub record RateLimiter (V : Type 0) : Type 0 where
  pub requests_total : V

pub record DnsDiscovery (V : Type 0) : Type 0 where
  pub refreshes_total : V
  pub resolved_endpoints : V

pub record Http (V : Type 0) : Type 0 where
  pub requests_total : V
  pub request_duration : V
  pub requests_in_flight : V

module _ {V : Type 0} (vs : Vectors V) where
  unfoldable pub record_allowed_request : RateLimiter V → String → RateLimiter V
  record_allowed_request m route = record m {
    requests_total = vs.inc m.requests_total (route ∷ "allowed" ∷ []);
  }

  unfoldable pub record_rejected_request : RateLimiter V → String → RateLimiter V
  record_rejected_request m route = record m {
    requests_total = vs.inc m.requests_total (route ∷ "rejected" ∷ []);
  }

  unfoldable pub record_successful_refresh : DnsDiscovery V → String → ℕ → DnsDiscovery V
  record_successful_refresh m route endpoint_count = record m {
    refreshes_total = vs.inc m.refreshes_total (route ∷ "success" ∷ []);
    resolved_endpoints = vs.set m.resolved_endpoints (route ∷ []) endpoint_count;
  }

  unfoldable pub record_failed_refresh : DnsDiscovery V → String → DnsDiscovery V
  record_failed_refresh m route = record m {
    refreshes_total = vs.inc m.refreshes_total (route ∷ "failure" ∷ []);
  }

  unfoldable pub dns_for_route : DnsDiscovery V → String → DnsDiscovery V
  dns_for_route m route = record m {
    resolved_endpoints = vs.set m.resolved_endpoints (route ∷ []) 0;
  }

  -- RecordRefresh
  unfoldable pub record_refresh : DnsDiscovery V → String → Refreshed → DnsDiscovery V
  unfolding record_successful_refresh record_failed_refresh
  record_refresh m route (endpoint_count, e) = elim e [
    | some _ ↦ record_failed_refresh m route
    | none ↦ record_successful_refresh m route endpoint_count
  ]

  unfoldable pub record_refreshes : DnsDiscovery V → String → List Refreshed → DnsDiscovery V
  unfolding record_refresh
  record_refreshes m route [] = m
  record_refreshes m route (r ∷ rs) = record_refreshes (record_refresh m route r) route rs

  unfoldable pub request_started : Http V → Http V
  request_started m = record m { requests_in_flight = vs.inc m.requests_in_flight [] }

  -- RequestFinished, with the text of the status.
  unfoldable pub request_finished : Http V → String → String → ℕ → Http V
  request_finished m route status duration = record m {
    requests_in_flight = vs.dec m.requests_in_flight [];
    requests_total = vs.inc m.requests_total (route ∷ status ∷ []);
    request_duration = vs.observe m.request_duration (route ∷ []) duration;
  }
