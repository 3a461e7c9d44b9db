-- ===== src/Metrics/Registration.antt =====
-- The constructors of internal/metrics and their order in run of cmd/devgate/main.go. The collectors
-- are registered in a registry, where a panic is `none`.
use dev_gate.Common.{
  ◌≡◌, refl, ap, ◌∙◌, true, List, [], ◌∷◌, ◌++◌, Option, none, some, map, Text, codes, String,
}
use dev_gate.Metrics.Prometheus.{Opts, Vectors, Registries, all_plain, are_new, full_name}
use dev_gate.Metrics.Breaker.{CircuitBreaker}
use dev_gate.Metrics.Health.{ActiveHealthCheck, PassiveHealth}
use dev_gate.Metrics.Traffic.{RateLimiter, DnsDiscovery, Http}

-- The constant `namespace`.
abbrev namespace : String
namespace = "devgate"

abbrev pub circuit_breaker_opts : Opts × Opts × Opts
circuit_breaker_opts = (
  record {
    namespace = namespace;
    subsystem = "circuit_breaker";
    name = "state";
    help = "Current circuit breaker's state (0 = closed, 1 = open, 2 = half-open).";
    labels = "route" ∷ [];
  },
  record {
    namespace = namespace;
    subsystem = "circuit_breaker";
    name = "transitions_total";
    help = "Total number of state transitions of the circuit breaker.";
    labels = "route" ∷ "from" ∷ "to" ∷ [];
  },
  record {
    namespace = namespace;
    subsystem = "circuit_breaker";
    name = "rejected_requests_total";
    help = "Total number of requests rejected by the circuit breaker.";
    labels = "route" ∷ [];
  },
)

abbrev pub rate_limiter_opts : Opts
rate_limiter_opts = record {
  namespace = namespace;
  subsystem = "rate_limiter";
  name = "requests_total";
  help = "Total number of HTTP requests handled by the rate limiter.";
  labels = "route" ∷ "outcome" ∷ [];
}

abbrev pub active_health_check_opts : Opts × Opts
active_health_check_opts = (
  record {
    namespace = namespace;
    subsystem = "active_health_check";
    name = "probes_total";
    help = "Total number of active health check probes.";
    labels = "route" ∷ "target" ∷ "outcome" ∷ [];
  },
  record {
    namespace = namespace;
    subsystem = "active_health_check";
    name = "endpoint_healthy";
    help = "Whether the endpoint is healthy (1 for healthy, 0 for unhealthy).";
    labels = "route" ∷ "target" ∷ [];
  },
)

abbrev pub passive_health_opts : Opts × Opts
passive_health_opts = (
  record {
    namespace = namespace;
    subsystem = "passive_health_check";
    name = "ejections_total";
    help = "Total number of passive upstream endpoint ejections.";
    labels = "route" ∷ "target" ∷ [];
  },
  record {
    namespace = namespace;
    subsystem = "passive_health_check";
    name = "endpoint_ejected";
    help = "Passive ejection state (1 for ejected, 0 for available).";
    labels = "route" ∷ "target" ∷ [];
  },
)

abbrev pub dns_discovery_opts : Opts × Opts
dns_discovery_opts = (
  record {
    namespace = namespace;
    subsystem = "dns_discovery";
    name = "refreshes_total";
    help = "Total number of DNS discovery refresh attempts.";
    labels = "route" ∷ "outcome" ∷ [];
  },
  record {
    namespace = namespace;
    subsystem = "dns_discovery";
    name = "resolved_endpoints";
    help = "Number of endpoints in the latest successful DNS discovery snapshot.";
    labels = "route" ∷ [];
  },
)

abbrev pub http_opts : Opts × Opts × Opts
http_opts = (
  record {
    namespace = namespace;
    subsystem = "http";
    name = "requests_total";
    help = "Total number of HTTP requests handled by the gateway.";
    labels = "route" ∷ "status" ∷ [];
  },
  record {
    namespace = namespace;
    subsystem = "http";
    name = "request_duration_seconds";
    help = "Duration of HTTP requests handled by the gateway in seconds.";
    labels = "route" ∷ [];
  },
  record {
    namespace = namespace;
    subsystem = "http";
    name = "requests_in_flight";
    help = "Number of HTTP requests currently in flight.";
    labels = [];
  },
)

-- The names under which run exports its metrics.
abbrev pub exported : List String
exported =
    "devgate_circuit_breaker_state" ∷ "devgate_circuit_breaker_transitions_total"
    ∷ "devgate_circuit_breaker_rejected_requests_total" ∷ "devgate_rate_limiter_requests_total"
    ∷ "devgate_active_health_check_probes_total" ∷ "devgate_active_health_check_endpoint_healthy"
    ∷ "devgate_passive_health_check_ejections_total"
    ∷ "devgate_passive_health_check_endpoint_ejected" ∷ "devgate_dns_discovery_refreshes_total"
    ∷ "devgate_dns_discovery_resolved_endpoints" ∷ "devgate_http_requests_total"
    ∷ "devgate_http_request_duration_seconds" ∷ "devgate_http_requests_in_flight" ∷ []

-- The collectors of run.
pub record Metrics (V : Type 0) : Type 0 where
  pub circuit_breaker : CircuitBreaker V
  pub rate_limiter : RateLimiter V
  pub active_health_check : ActiveHealthCheck V
  pub passive_health : PassiveHealth V
  pub dns_discovery : DnsDiscovery V
  pub http : Http V

module _ {R V : Type 0} (rs : Registries R) (vs : Vectors V) where
  unfoldable pub new_circuit_breaker : R → Option (R × CircuitBreaker V)
  new_circuit_breaker r =
      let (state, transitions, rejected) = circuit_breaker_opts in
      elim (rs.must_register r (state ∷ transitions ∷ rejected ∷ [])) [
        | none ↦ none
        | some r' ↦ some (
          r',
          record {
            state = vs.fresh state;
            transitions_total = vs.fresh transitions;
            rejected_requests_total = vs.fresh rejected;
          },
        )
      ]

  unfoldable pub new_rate_limiter : R → Option (R × RateLimiter V)
  new_rate_limiter r = elim (rs.must_register r (rate_limiter_opts ∷ [])) [
    | none ↦ none
    | some r' ↦ some (r', record { requests_total = vs.fresh rate_limiter_opts })
  ]

  unfoldable pub new_active_health_check : R → Option (R × ActiveHealthCheck V)
  new_active_health_check r =
      let (probes, healthy) = active_health_check_opts in
      elim (rs.must_register r (probes ∷ healthy ∷ [])) [
        | none ↦ none
        | some r' ↦
            some
              (r', record { probes_total = vs.fresh probes; endpoint_healthy = vs.fresh healthy })
      ]

  unfoldable pub new_passive_health : R → Option (R × PassiveHealth V)
  new_passive_health r =
      let (ejections, ejected) = passive_health_opts in
      elim (rs.must_register r (ejections ∷ ejected ∷ [])) [
        | none ↦ none
        | some r' ↦ some (
          r',
          record { ejections_total = vs.fresh ejections; endpoint_ejected = vs.fresh ejected },
        )
      ]

  unfoldable pub new_dns_discovery : R → Option (R × DnsDiscovery V)
  new_dns_discovery r =
      let (refreshes, resolved) = dns_discovery_opts in
      elim (rs.must_register r (refreshes ∷ resolved ∷ [])) [
        | none ↦ none
        | some r' ↦ some (
          r',
          record { refreshes_total = vs.fresh refreshes; resolved_endpoints = vs.fresh resolved },
        )
      ]

  unfoldable pub new_http : R → Option (R × Http V)
  new_http r =
      let (requests, duration, in_flight) = http_opts in
      elim (rs.must_register r (requests ∷ duration ∷ in_flight ∷ [])) [
        | none ↦ none
        | some r' ↦ some (
          r',
          record {
            requests_total = vs.fresh requests;
            request_duration = vs.fresh duration;
            requests_in_flight = vs.fresh in_flight;
          },
        )
      ]

  -- The registry and the collectors of run.
  unfoldable pub new_metrics : Option (R × Metrics V)
  unfolding new_circuit_breaker new_rate_limiter new_active_health_check new_passive_health
      new_dns_discovery new_http
  new_metrics = elim (new_circuit_breaker rs.new_registry) [
    | none ↦ none
    | some (r₁, breaker) ↦ elim (new_rate_limiter r₁) [
      | none ↦ none
      | some (r₂, limiter) ↦ elim (new_active_health_check r₂) [
        | none ↦ none
        | some (r₃, active) ↦ elim (new_passive_health r₃) [
          | none ↦ none
          | some (r₄, passive) ↦ elim (new_dns_discovery r₄) [
            | none ↦ none
            | some (r₅, dns) ↦ elim (new_http r₅) [
              | none ↦ none
              | some (r₆, http) ↦ some (
                r₆,
                record {
                  circuit_breaker = breaker;
                  rate_limiter = limiter;
                  active_health_check = active;
                  passive_health = passive;
                  dns_discovery = dns;
                  http = http;
                },
              )
            ]
          ]
        ]
      ]
    ]
  ]

  -- All collectors before anything is recorded.
  abbrev pub initial : Metrics V
  initial =
      let (state, transitions, rejected) = circuit_breaker_opts in
      let (probes, healthy) = active_health_check_opts in
      let (ejections, ejected) = passive_health_opts in
      let (refreshes, resolved) = dns_discovery_opts in
      let (requests, duration, in_flight) = http_opts in
      record {
        circuit_breaker = record {
          state = vs.fresh state;
          transitions_total = vs.fresh transitions;
          rejected_requests_total = vs.fresh rejected;
        };
        rate_limiter = record { requests_total = vs.fresh rate_limiter_opts };
        active_health_check = record {
          probes_total = vs.fresh probes;
          endpoint_healthy = vs.fresh healthy;
        };
        passive_health = record {
          ejections_total = vs.fresh ejections;
          endpoint_ejected = vs.fresh ejected;
        };
        dns_discovery = record {
          refreshes_total = vs.fresh refreshes;
          resolved_endpoints = vs.fresh resolved;
        };
        http = record {
          requests_total = vs.fresh requests;
          request_duration = vs.fresh duration;
          requests_in_flight = vs.fresh in_flight;
        };
      }

  register_onto :
      (r : R) (old : List Text) (os : List Opts)
      → rs.names r ≡ old
      → all_plain os ≡ true
      → are_new old (map full_name os) ≡ true
      → (r' : R) × (rs.must_register r os ≡ some r') × (rs.names r' ≡ old ++ map full_name os)
  register_onto r old os e plain fresh =
      let (r', f, n) = rs.must_register_plain r os plain (rw e fresh) in
      (r', f, n ∙ ap (λ x. x ++ map full_name os) e)

  -- The six constructors do not panic on the registry of run: all collectors are registered under
  -- distinct names, which are those exported, and nothing is recorded in them yet.
  pub new_metrics_lem :
      (r : R) × (new_metrics ≡ some (r, initial)) × (rs.names r ≡ map codes exported)
  unfolding new_metrics all_plain are_new
  new_metrics_lem =
      let (a, b, c) = circuit_breaker_opts in
      let (d, e) = active_health_check_opts in
      let (f, g) = passive_health_opts in
      let (h, i) = dns_discovery_opts in
      let (j, k, l) = http_opts in
      let (r₁, e₁, n₁) =
        register_onto rs.new_registry [] (a ∷ b ∷ c ∷ []) rs.names-new_registry refl refl in
      let (r₂, e₂, n₂) = register_onto r₁ _ (rate_limiter_opts ∷ []) n₁ refl refl in
      let (r₃, e₃, n₃) = register_onto r₂ _ (d ∷ e ∷ []) n₂ refl refl in
      let (r₄, e₄, n₄) = register_onto r₃ _ (f ∷ g ∷ []) n₃ refl refl in
      let (r₅, e₅, n₅) = register_onto r₄ _ (h ∷ i ∷ []) n₄ refl refl in
      let (r₆, e₆, n₆) = register_onto r₅ _ (j ∷ k ∷ l ∷ []) n₅ refl refl in
      (r₆, rw (e₁, new_metrics) rw e₂ rw e₃ rw e₄ rw e₅ rw e₆ refl, n₆)
