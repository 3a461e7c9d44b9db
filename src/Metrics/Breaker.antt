-- ===== src/Metrics/Breaker.antt =====
-- internal/metrics/circuit_breaker.go and circuit_breaker_observer.go, and what they show of the
-- breakers of internal/proxy/circuit_breaker.go.
pub mod Shown
use text.Mathlib.Text.{◌==◌ as str_eq}
use dev_gate.Common.{ℕ, suc, ◌+◌, ◌<◌, ◌≡◌, refl, List, [], ◌∷◌, String, if◌then◌else◌, arith}
use dev_gate.Proxy.CircuitBreaker.{
  CircuitState, CircuitEvent, closed, opened, half_open, rejected_request, state_transition,
}
use dev_gate.Metrics.Prometheus.{Vectors}

pub record CircuitBreaker (V : Type 0) : Type 0 where
  pub state : V
  pub transitions_total : V
  pub rejected_requests_total : V

-- `int(state)`
abbrev pub state_number : CircuitState → ℕ
state_number closed = 0
state_number opened = 1
state_number half_open = 2

-- CircuitState.String
abbrev pub state_name : CircuitState → String
state_name closed = "closed"
state_name opened = "open"
state_name half_open = "half_open"

module _ {V : Type 0} (vs : Vectors V) where
  unfoldable pub record_rejected_request : CircuitBreaker V → String → CircuitBreaker V
  record_rejected_request m route = record m {
    rejected_requests_total = vs.inc m.rejected_requests_total (route ∷ []);
  }

  unfoldable pub set_state : CircuitBreaker V → String → ℕ → CircuitBreaker V
  set_state m route n = record m { state = vs.set m.state (route ∷ []) n }

  unfoldable pub record_transition : CircuitBreaker V → String → String → String → CircuitBreaker V
  record_transition m route from to = record m {
    transitions_total = vs.inc m.transitions_total (route ∷ from ∷ to ∷ []);
  }

  -- ForRoute; the metrics of a route are those of all routes with its name.
  unfoldable pub for_route : CircuitBreaker V → String → CircuitBreaker V
  unfolding set_state
  for_route m route = set_state m route (state_number closed)

  -- The observer's two methods.
  unfoldable pub observe : CircuitBreaker V → String → CircuitEvent → CircuitBreaker V
  unfolding record_rejected_request set_state record_transition
  observe m route rejected_request = record_rejected_request m route
  observe m route (state_transition from to) =
      record_transition (set_state m route (state_number to)) route (state_name from)
        (state_name to)

  unfoldable pub for_routes : CircuitBreaker V → List String → CircuitBreaker V
  unfolding for_route
  for_routes m [] = m
  for_routes m (route ∷ routes) = for_routes (for_route m route) routes

  -- The calls of the observers of several routes, the latest first.
  unfoldable pub observed : CircuitBreaker V → List (String × CircuitEvent) → CircuitBreaker V
  unfolding observe
  observed m [] = m
  observed m ((route, event) ∷ log) = observe (observed m log) route event

-- The events of one route.
unfoldable pub of_route : String → List (String × CircuitEvent) → List CircuitEvent
of_route route [] = []
of_route route ((r, event) ∷ log) =
    if str_eq r route then event ∷ of_route route log else of_route route log
