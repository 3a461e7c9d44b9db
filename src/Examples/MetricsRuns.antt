-- ===== src/Examples/MetricsRuns.antt =====
-- internal/metrics over vectors that are functions from labels and a registry that is its names.
use mathlib.Core.List.{Memᴰ}
use dev_gate.Common.{
  ℕ, suc, ◌-◌, ◌≡◌, refl, Bool, true, false, ◌&&◌, String, List, [], ◌∷◌, ◌++◌, Option, none, some,
  arith, if◌then◌else◌, map, pos, Text, length,
}
use dev_gate.Upstream.EndpointMembership
use dev_gate.Upstream.EndpointMembership.{EndpointMembership}
use dev_gate.Upstream.RoundRobin.{RoundRobin}
use dev_gate.Upstream.RoundRobin
use dev_gate.Upstream.EndpointCoordinator.{EndpointCoordinator, apply}
use dev_gate.Upstream.HealthTracker.History.{is_healthy}
use dev_gate.Upstream.HealthChecker.{received, notify}
use dev_gate.Discovery.Watcher.{Refreshed, run}
use dev_gate.Proxy.CircuitBreaker.{
  CircuitEvent, CircuitState, closed, opened, half_open, rejected_request, state_transition,
  acquire_permit, record_outcome,
}
use dev_gate.Proxy.CircuitBreaker.Calls as Calls
use dev_gate.Metrics.Prometheus.{
  Labels, Opts, Vectors, Registries, labels_eq, all_plain, are_new, full_name,
}
use dev_gate.Metrics.Breaker.{state_number, state_name, observed, for_routes, of_route}
use dev_gate.Metrics.Breaker.Shown.{
  gauge_shows_state, counters_lem, fresh_metrics, rejections, transitions,
}
use dev_gate.Metrics.Health.{ActiveHealthCheck, flag, active_for_route, notices}
use dev_gate.Metrics.Health.Shown.{Check, checks, gauge_shows_health}
use dev_gate.Metrics.Traffic.{DnsDiscovery, dns_for_route, record_refreshes}
use dev_gate.Metrics.Traffic.Resolved.{resolved, gauge_shows_members}
use dev_gate.Metrics.Traffic.Requests.{
  RequestEvent, started, finished, InFlight, idle, arrival, completion, requests, fresh_http,
  finished_with, finished_at, requests_lem,
}
use dev_gate.Examples.BreakerRuns.{some_base, fresh, fresh_made, outage}
use dev_gate.Examples.PoolRuns.{own_text, tracker, tracker_made}
use dev_gate.Examples.CoordinatorRuns.{coordinator, tracker-Inv}
use dev_gate.Examples.DiscoveryRuns.{lookups}

pub lowered :
    (b : Bool) (old n other : ℕ)
    → old ≡ suc n
    → (if b then old - 1 else other) ≡ (if b then n else other)
lowered b old n other e = ground (arith, e)

abbrev pub vectors : Vectors (Labels → ℕ)
vectors = record {
  fresh = λ o l. 0;
  value = λ v l. v l;
  inc = λ v l m. if labels_eq l m then suc (v m) else v m;
  dec = λ v l m. if labels_eq l m then v l - 1 else v m;
  set = λ v l n m. if labels_eq l m then n else v m;
  observe = λ v l n m. if labels_eq l m then suc (v m) else v m;
  value-fresh = λ o l. refl;
  value-inc = λ v l m small. refl;
  value-dec = λ v l m n e small. lowered (labels_eq l m) (v l) n (v m) e;
  value-set = λ v l m n small. refl;
  value-observe = λ v l m n small. refl;
}

abbrev register : List Text → List Opts → Option (List Text)
register names os =
    if all_plain os && are_new names (map full_name os)
    then some (names ++ map full_name os)
    else none

pub registries : Registries (List Text)
registries = record {
  new_registry = [];
  names = λ r. r;
  must_register = register;
  names-new_registry = refl;
  must_register_plain = λ r os plain new. (r ++ map full_name os, ground (arith, plain, new), refl);
}

abbrev pub opts : Opts
opts = record { namespace = "n"; subsystem = "s"; name = "x"; help = ""; labels = [] }

-- The events of the outage on the route "a", with one of another route in between.
abbrev log : List (String × CircuitEvent)
log =
    ("a", rejected_request)
    ∷ ("a", state_transition opened half_open)
    ∷ ("b", rejected_request)
    ∷ ("a", rejected_request)
    ∷ ("a", state_transition closed opened)
    ∷ []

log_told : of_route "a" log ≡ (Calls.run (Calls.start fresh) outage).breaker.events
unfolding of_route Calls.run acquire_permit record_outcome
log_told = refl

gauge_shows_state_example :
    (observed vectors
        (for_routes vectors (fresh_metrics vectors opts opts opts) ("b" ∷ "a" ∷ []))
        log).state
      ("a" ∷ [])
    ≡ state_number (Calls.run (Calls.start fresh) outage).breaker.state
gauge_shows_state_example =
    gauge_shows_state vectors some_base (pos 2) (pos 10) some_base fresh outage
      (fresh_metrics vectors opts opts opts) ("b" ∷ "a" ∷ []) "a" log fresh_made
      (Memᴰ.tail (Memᴰ.head refl)) log_told

counters_lem_example :
    ((observed vectors
          (for_routes vectors (fresh_metrics vectors opts opts opts) ("a" ∷ []))
          log).rejected_requests_total
        ("a" ∷ [])
      ≡ rejections (of_route "a" log))
    × ((a b : CircuitState)
        → (observed vectors
              (for_routes vectors (fresh_metrics vectors opts opts opts) ("a" ∷ []))
              log).transitions_total
            ("a" ∷ state_name a ∷ state_name b ∷ [])
          ≡ transitions a b (of_route "a" log))
counters_lem_example = counters_lem vectors opts opts opts ("a" ∷ []) log "a" (omega arith)

-- Of three requests, two have finished.
abbrev calls : List RequestEvent
calls = finished "a" "404" 7 ∷ started ∷ finished "a" "200" 5 ∷ started ∷ started ∷ []

calls-InFlight : InFlight 1 calls
calls-InFlight = completion "a" "404" 7 (arrival (completion "a" "200" 5 (arrival (arrival idle))))

requests_lem_example :
    ((requests vectors (fresh_http vectors opts opts opts) calls).requests_in_flight [] ≡ 1)
    × ((requests vectors (fresh_http vectors opts opts opts) calls).requests_total
          ("a" ∷ "404" ∷ [])
        ≡ finished_with "a" "404" calls)
    × ((requests vectors (fresh_http vectors opts opts opts) calls).request_duration ("a" ∷ [])
        ≡ finished_at "a" calls)
requests_lem_example =
    requests_lem vectors opts opts opts calls "a" "404" calls-InFlight (omega arith)

abbrev probes : List (Check String)
probes =
    ("a", received false 503, false)
    ∷ ("b", received false 500, false)
    ∷ ("a", received false 503, false)
    ∷ ("a", received true 200, false)
    ∷ []

abbrev no_probes : ActiveHealthCheck (Labels → ℕ)
no_probes = record { probes_total = vectors.fresh opts; endpoint_healthy = vectors.fresh opts }

gauge_shows_health_example :
    (notices vectors own_text
        (active_for_route vectors own_text no_probes "r" ("a" ∷ "b" ∷ "a" ∷ []))
        "r"
        (notify (checks own_text tracker probes).1)).endpoint_healthy
      ("r" ∷ "a" ∷ [])
    ≡ flag (is_healthy own_text (checks own_text tracker probes).0.health_by_target "a")
gauge_shows_health_example =
    gauge_shows_health vectors own_text own_text "r" "a" (λ v. (λ e. e, λ e. e))
      ("a" ∷ "b" ∷ "a" ∷ []) (pos 2) (pos 3) tracker no_probes probes tracker_made (Memᴰ.head refl)

abbrev no_refreshes : DnsDiscovery (Labels → ℕ)
no_refreshes = record {
  refreshes_total = vectors.fresh opts;
  resolved_endpoints = vectors.fresh opts;
}

abbrev memberless : EndpointCoordinator String (RoundRobin String)
memberless = record coordinator { membership = record { snapshot = some [] } }

memberless_none : EndpointMembership.healthy_endpoints memberless.membership ≡ []
unfolding EndpointMembership.healthy_endpoints
memberless_none = refl

gauge_shows_members_example :
    (c : EndpointCoordinator String (RoundRobin String)) × (rs : List Refreshed) × (run
        (apply own_text RoundRobin.picker)
        memberless
        lookups
      ≡ some (c, rs))
    × (resolved vectors "r"
          (record_refreshes vectors (dns_for_route vectors no_refreshes "r") "r" rs)
        ≡ length (EndpointMembership.healthy_endpoints c.membership))
gauge_shows_members_example =
    gauge_shows_members vectors "r" own_text RoundRobin.picker no_refreshes memberless lookups
      tracker-Inv memberless_none (omega arith, (omega arith, (omega arith, (omega arith, tt))))
