-- ===== src/Router/Validation/Upstreams.antt =====
-- The validation of internal/router/upstream.go.
use dev_gate.Common.{
  is_empty, Bool, true, false, not, ◌&&◌, List, [], ◌∷◌, Option, none, some, Text, codes, text_eq,
  has_prefix, contains_any, length, ◌==◌, pos, lez, Result, err, ok, ◌>>◌, reject,
}
use dev_gate.Router.Std.{Std, Url}
use dev_gate.Router.Route.{
  Upstream, LoadBalancingPolicy, other_policy, DnsDiscoveryPolicy, ActiveHealthCheckPolicy,
  PassiveHealthCheckPolicy,
}

pub data ActiveHealthError : Type 0 where
  path_missing path_relative path_reserved interval_not_positive : ActiveHealthError
  timeout_not_positive healthy_threshold_not_positive : ActiveHealthError
  unhealthy_threshold_not_positive max_concurrent_probes_not_positive : ActiveHealthError

pub data PassiveHealthError : Type 0 where
  failures_not_positive ejection_not_positive : PassiveHealthError

pub data UpstreamError : Type 0 where
  unsupported_policy no_endpoint bad_scheme bad_host dns_endpoints dns_scheme : UpstreamError
  dns_refresh_not_positive dns_timeout_not_positive : UpstreamError
  active_health : ActiveHealthError → UpstreamError
  passive_health : PassiveHealthError → UpstreamError

abbrev pub is_supported : LoadBalancingPolicy → Bool
is_supported (other_policy name) = false
is_supported _ = true

abbrev active_error : Result ActiveHealthError (Unit {0}) → Result UpstreamError (Unit {0})
active_error (err e) = err (active_health e)
active_error (ok u) = ok u

abbrev passive_error : Result PassiveHealthError (Unit {0}) → Result UpstreamError (Unit {0})
passive_error (err e) = err (passive_health e)
passive_error (ok u) = ok u

-- PassiveHealthCheckPolicy.validate
unfoldable pub validate_passive : PassiveHealthCheckPolicy → Result PassiveHealthError (Unit {0})
validate_passive p = do
  reject (lez p.consecutive_failures (pos 0)) failures_not_positive
  reject (lez p.ejection_duration (pos 0)) ejection_not_positive

abbrev head_scheme : List Url → Text
head_scheme [] = []
head_scheme (u ∷ us) = u.scheme

module _ (std : Std) where
  -- ActiveHealthCheckPolicy.validate
  unfoldable pub validate_active : ActiveHealthCheckPolicy → Result ActiveHealthError (Unit {0})
  unfolding has_prefix contains_any
  validate_active p = do
    reject (is_empty (std.trim_space p.path)) path_missing
    reject (not (has_prefix p.path (codes "/"))) path_relative
    reject (contains_any p.path (codes "?#")) path_reserved
    reject (lez p.interval (pos 0)) interval_not_positive
    reject (lez p.timeout (pos 0)) timeout_not_positive
    reject (lez p.healthy_threshold (pos 0)) healthy_threshold_not_positive
    reject (lez p.unhealthy_threshold (pos 0)) unhealthy_threshold_not_positive
    reject (lez p.max_concurrent_probes (pos 0)) max_concurrent_probes_not_positive

  unfoldable pub check_endpoints : List Url → Result UpstreamError (Unit {0})
  unfolding text_eq
  check_endpoints [] = ok tt
  check_endpoints (u ∷ us) = do
    reject (not (text_eq u.scheme (codes "http")) && not (text_eq u.scheme (codes "https")))
        bad_scheme
    reject (is_empty (std.trim_space u.host)) bad_host
    check_endpoints us

  unfoldable pub check_dns : List Url → Option DnsDiscoveryPolicy → Result UpstreamError (Unit {0})
  unfolding text_eq
  check_dns endpoints none = ok tt
  check_dns endpoints (some d) = do
    reject (not (length endpoints == 1)) dns_endpoints
    reject (not (text_eq (head_scheme endpoints) (codes "http"))) dns_scheme
    reject (lez d.refresh_interval (pos 0)) dns_refresh_not_positive
    reject (lez d.lookup_timeout (pos 0)) dns_timeout_not_positive

  unfoldable pub check_active : Option ActiveHealthCheckPolicy → Result UpstreamError (Unit {0})
  unfolding validate_active
  check_active none = ok tt
  check_active (some p) = active_error (validate_active p)

  unfoldable pub check_passive : Option PassiveHealthCheckPolicy → Result UpstreamError (Unit {0})
  unfolding validate_passive
  check_passive none = ok tt
  check_passive (some p) = passive_error (validate_passive p)

  -- Upstream.validate
  unfoldable pub validate_upstream : Upstream → Result UpstreamError (Unit {0})
  unfolding check_endpoints check_dns check_active check_passive
  validate_upstream u = do
    reject (not (is_supported u.load_balancing)) unsupported_policy
    reject (length u.endpoints == 0) no_endpoint
    check_endpoints u.endpoints
    check_dns u.endpoints u.dns_discovery
    check_active u.active_health_check
    check_passive u.passive_health_check
