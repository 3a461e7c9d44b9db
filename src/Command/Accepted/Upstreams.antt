-- ===== src/Command/Accepted/Upstreams.antt =====
-- The constructors that cmd/devgate calls for an upstream that internal/router has validated.
use dev_gate.Common.{
  ℕ, ◌≡◌, refl, inl, inr, true, false, List, [], ◌∷◌, Option, none, some, String, arith, Text,
  codes, length, is_empty, ok, Option-cases, has_prefix, ◌==◌, pos_part,
}
use dev_gate.Router.Std.{Std, Url}
use dev_gate.Router.Route.{
  ActiveHealthCheckPolicy, PassiveHealthCheckPolicy, LoadBalancingPolicy, Upstream, round_robin,
  random, least_requests, other_policy,
}
use dev_gate.Router.Validation.Upstreams.{
  validate_upstream, validate_active, validate_passive, check_active, check_passive, check_dns,
  is_supported,
}
use dev_gate.Upstream.HealthTracker.{HealthTracker}
use dev_gate.Upstream.HealthTracker.Laws.{new-ok, new-Inv}
use dev_gate.Upstream.PassiveHealth.{PassiveHealthTracker}
use dev_gate.Upstream.PassiveHealth
use dev_gate.Upstream.EndpointCoordinator.Reading.{ActiveInv}
use dev_gate.Upstream.HealthChecker.{HealthChecker}
use dev_gate.Upstream.HealthChecker
use dev_gate.Upstream.LeastRequests.{Endpoint}
use dev_gate.Upstream.LeastRequests
use dev_gate.Upstream.RoundRobin
use dev_gate.Upstream.Random as Randomly
use dev_gate.Discovery.Watcher.{DnsWatcher}
use dev_gate.Discovery.Watcher
use dev_gate.Command.Picking.{Picker}
use dev_gate.Command.Assembly.{
  new_picker, new_route_active_health_checker, new_route_active_health_tracker,
  new_route_dns_watcher, new_route_passive_health_tracker,
}

nonempty_cases :
    (us : List Url) → (length us == 0) ≡ false → (v : Url) × (vs : List Url) × (us ≡ v ∷ vs)
nonempty_cases [] e = absurd (ground (arith, e))
nonempty_cases (v ∷ vs) e = (v, vs, refl)

rooted-is_empty : (path : Text) → has_prefix path (codes "/") ≡ true → is_empty path ≡ false
unfolding has_prefix
rooted-is_empty [] e = absurd (ground (arith, e))
rooted-is_empty (c ∷ path) e = refl

endpoints_some :
    (std : Std) (u : Upstream)
    → validate_upstream std u ≡ ok tt
    → (v : Url) × (vs : List Url) × (u.endpoints ≡ v ∷ vs)
unfolding validate_upstream
endpoints_some std u e = nonempty_cases u.endpoints (ground (arith, e))

supported :
    (std : Std) (u : Upstream)
    → validate_upstream std u ≡ ok tt
    → is_supported u.load_balancing ≡ true
unfolding validate_upstream
supported std u e = ground (arith, e)

module _ (std : Std) (url_string : Url → String) (u : Upstream)
    (valid : validate_upstream std u ≡ ok tt) where
  active_valid :
      (p : ActiveHealthCheckPolicy) → u.active_health_check ≡ some p → validate_active std p ≡ ok tt
  unfolding validate_upstream check_active
  active_valid p n = ground (arith, n, valid)

  passive_valid :
      (p : PassiveHealthCheckPolicy) → u.passive_health_check ≡ some p → validate_passive p ≡ ok tt
  unfolding validate_upstream check_passive
  passive_valid p n = ground (arith, n, valid)

  pub active_lem :
      (o : Option (HealthTracker Url)) × (new_route_active_health_tracker url_string u ≡ ok o)
      × ActiveInv url_string o
  unfolding new_route_active_health_tracker validate_active
  active_lem = elim (Option-cases u.active_health_check) [
    | inl n ↦ (none, ground (arith, n), refl)
    | inr (p, n) ↦
        let (v, vs, q) = endpoints_some std u valid in
        let checked : validate_active std p ≡ ok tt = active_valid p n in
        let (t, made) =
          new-ok url_string v vs p.healthy_threshold p.unhealthy_threshold (ground (arith, checked))
            (ground (arith, checked)) in
        (
          some t,
          ground (arith, n, q, made),
          new-Inv url_string (v ∷ vs) p.healthy_threshold p.unhealthy_threshold t made,
        )
  ]

  pub passive_lem :
      (o : Option (PassiveHealthTracker Url)) × (new_route_passive_health_tracker url_string u
        ≡ ok o)
  unfolding new_route_passive_health_tracker validate_passive PassiveHealth.new
  passive_lem = elim (Option-cases u.passive_health_check) [
    | inl n ↦ (none, ground (arith, n))
    | inr (p, n) ↦
        let (v, vs, q) = endpoints_some std u valid in
        let checked : validate_passive p ≡ ok tt = passive_valid p n in
        (
          some (record {
            ordered = v ∷ vs;
            state_by_target = (PassiveHealth.fill url_string [] 0 (v ∷ vs)).0;
            failure_threshold = pos_part p.consecutive_failures;
            ejection_duration = pos_part p.ejection_duration;
            next_address = (PassiveHealth.fill url_string [] 0 (v ∷ vs)).1;
          }),
          ground (arith, n, q, checked),
        )
  ]

  pub checker_lem : (o : Option HealthChecker) × (new_route_active_health_checker u ≡ ok o)
  unfolding new_route_active_health_checker validate_active HealthChecker.new
  checker_lem = elim (Option-cases u.active_health_check) [
    | inl n ↦ (none, ground (arith, n))
    | inr (p, n) ↦
        let checked : validate_active std p ≡ ok tt = active_valid p n in
        (
          some (record {
            interval = p.interval;
            timeout = p.timeout;
            health_path = p.path;
            max_concurrent_probes = p.max_concurrent_probes;
          }),
          ground (arith, n, checked, rooted-is_empty p.path),
        )
  ]

  pub watcher_lem : (o : Option DnsWatcher) × (new_route_dns_watcher u ≡ ok o)
  unfolding validate_upstream new_route_dns_watcher check_dns Watcher.new
  watcher_lem = elim (Option-cases u.dns_discovery) [
    | inl n ↦ (none, ground (arith, n))
    | inr (d, n) ↦ (
      some (record { refresh_interval = d.refresh_interval; lookup_timeout = d.lookup_timeout }),
      ground (arith, n, valid),
    )
  ]

module _ {S : Type 0} (std : Std) (url_string : Url → String) (source : S)
    (initial : ℕ → Endpoint Url) where
  policy_at :
      (policy : LoadBalancingPolicy) (u : Upstream) (v : Url) (vs : List Url)
      → u.load_balancing ≡ policy
      → u.endpoints ≡ v ∷ vs
      → is_supported policy ≡ true
      → (p : Picker S) × (new_picker url_string source initial u ≡ ok p)
  unfolding new_picker RoundRobin.new RoundRobin.replace Randomly.new Randomly.replace
      LeastRequests.new LeastRequests.replace
  policy_at round_robin u v vs e q k = rw (e, q, new_picker) (_, refl)
  policy_at random u v vs e q k = rw (e, q, new_picker) (_, refl)
  policy_at least_requests u v vs e q k = rw (e, q, new_picker) (_, refl)
  policy_at (other_policy name) u v vs e q k = absurd (ground (arith, k))

  pub picker_lem :
      (u : Upstream)
      → validate_upstream std u ≡ ok tt
      → (p : Picker S) × (new_picker url_string source initial u ≡ ok p)
  picker_lem u valid =
      let (v, vs, q) = endpoints_some std u valid in
      policy_at u.load_balancing u v vs refl q (supported std u valid)
