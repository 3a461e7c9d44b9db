-- ===== src/Metrics/Breaker/Shown.antt =====
-- What the metrics of internal/metrics/circuit_breaker.go show of the breakers of
-- internal/proxy/circuit_breaker.go.
use mathlib.Core.List.{Memᴰ}
use text.Mathlib.Text.{◌==◌ as str_eq}
use text.Mathlib.TextEquality.{eq_iff}
use text.Mathlib.TextPositions.{eq_refl}
use dev_gate.Common.{
  ℕ, suc, ◌≤◌, ◌<◌, ◌≡◌, refl, sym, ap, ◌∙◌, ◌&&◌, inl, inr, List, [], ◌∷◌, Option, String,
  if◌then◌else◌, arith, length, ℤ, ok, Bool-cases, ◌==◌,
}
use dev_gate.Proxy.CircuitBreaker.{
  CircuitState, CircuitEvent, closed, opened, half_open, rejected_request, state_transition, new,
}
use dev_gate.Proxy.CircuitBreaker
use dev_gate.Proxy.CircuitBreaker.Calls.{Call, run, start}
use dev_gate.Proxy.CircuitBreaker.Transitions.{Walk, run-new-Sound}
use dev_gate.Metrics.Prometheus.{Labels, Opts, Vectors, labels_eq, exact}
use dev_gate.Metrics.Breaker.{
  CircuitBreaker, state_number, state_name, for_route, for_routes, observed, of_route,
}

-- The state after events, from the one before.
last_state : ℕ → List CircuitEvent → ℕ
last_state n [] = n
last_state n (rejected_request ∷ es) = last_state n es
last_state n (state_transition from to ∷ es) = state_number to

last_state-Walk :
    (es : List CircuitEvent) (st : CircuitState) → Walk es st → last_state 0 es ≡ state_number st
unfolding last_state
last_state-Walk [] st w = ap state_number (sym w)
last_state-Walk (rejected_request ∷ es) st w = last_state-Walk es st w
last_state-Walk (state_transition from to ∷ es) st w = ap state_number w.0

-- The events of a kind.
abbrev pub rejections : List CircuitEvent → ℕ
rejections [] = 0
rejections (rejected_request ∷ es) = suc (rejections es)
rejections (state_transition from to ∷ es) = rejections es

abbrev pub transitions : CircuitState → CircuitState → List CircuitEvent → ℕ
transitions a b [] = 0
transitions a b (rejected_request ∷ es) = transitions a b es
transitions a b (state_transition from to ∷ es) =
    if state_number from == state_number a && state_number to == state_number b
    then suc (transitions a b es)
    else transitions a b es

rejections-le :
    (route : String) (log : List (String × CircuitEvent))
    → rejections (of_route route log) ≤ length log
unfolding of_route
rejections-le route [] = omega arith
rejections-le route ((r, rejected_request) ∷ log) = ground (arith, rejections-le route log)
rejections-le route ((r, state_transition from to) ∷ log) = ground (arith, rejections-le route log)

transitions-le :
    (a b : CircuitState) (route : String) (log : List (String × CircuitEvent))
    → transitions a b (of_route route log) ≤ length log
unfolding of_route
transitions-le a b route [] = omega arith
transitions-le a b route ((r, rejected_request) ∷ log) =
    ground (arith, transitions-le a b route log)
transitions-le a b route ((r, state_transition from to) ∷ log) =
    ground (arith, transitions-le a b route log)

-- The names of the states are as distinct as their numbers.
state_name_lem :
    (a b : CircuitState) → str_eq (state_name a) (state_name b) ≡ (state_number a == state_number b)
state_name_lem closed closed = refl
state_name_lem closed opened = refl
state_name_lem closed half_open = refl
state_name_lem opened closed = refl
state_name_lem opened opened = refl
state_name_lem opened half_open = refl
state_name_lem half_open closed = refl
state_name_lem half_open opened = refl
state_name_lem half_open half_open = refl

module _ {V : Type 0} (vs : Vectors V) where
  state-observed :
      (m : CircuitBreaker V) (log : List (String × CircuitEvent)) (route : String)
      → vs.value (observed vs m log).state (route ∷ [])
        ≡ last_state (vs.value m.state (route ∷ [])) (of_route route log)
  unfolding observed last_state of_route labels_eq
  state-observed m [] route = refl
  state-observed m ((r, rejected_request) ∷ log) route = ground (arith, state-observed m log route)
  state-observed m ((r, state_transition from to) ∷ log) route =
      elim (Bool-cases (str_eq r route)) [
        | inl e ↦ ground (
          arith,
          state-observed m log route,
          vs.value-set (observed vs m log).state (r ∷ []) (route ∷ []) (state_number to),
          e,
        )
        | inr e ↦ ground (
          arith,
          state-observed m log route,
          vs.value-set (observed vs m log).state (r ∷ []) (route ∷ []) (state_number to),
          e,
        )
      ]

  for_routes-kept :
      (m : CircuitBreaker V) (routes : List String) (route : String)
      → vs.value m.state (route ∷ []) ≡ 0
      → vs.value (for_routes vs m routes).state (route ∷ []) ≡ 0
  unfolding for_routes labels_eq
  for_routes-kept m [] route e = e
  for_routes-kept m (r ∷ routes) route e =
      for_routes-kept (for_route vs m r) routes route
        (ground (arith, e, vs.value-set m.state (r ∷ []) (route ∷ []) 0))

  for_routes-closed :
      (m : CircuitBreaker V) (routes : List String) (route : String)
      → Memᴰ route routes
      → vs.value (for_routes vs m routes).state (route ∷ []) ≡ 0
  unfolding for_routes labels_eq
  for_routes-closed m [] route i = elim i [ ]
  for_routes-closed m (r ∷ routes) route (Memᴰ.head e) =
      for_routes-kept (for_route vs m r) routes route (
        ground
          (arith, e, eq_refl route, vs.value-set m.state (r ∷ []) (route ∷ []) 0, eq_iff r route))
  for_routes-closed m (r ∷ routes) route (Memᴰ.tail i) =
      for_routes-closed (for_route vs m r) routes route i

  -- The state gauge of a route whose breaker was new shows the state of the breaker: after every
  -- history of concurrent calls of this breaker, and whatever the observers of other routes were
  -- told in between, its value is the number of the breaker's state.
  pub gauge_shows_state :
      {B O : Type 0} (base : Option B) (threshold timeout : ℤ) (o : Option O)
      (t : CircuitBreaker.CircuitBreaker) (cs : List Call) (m : CircuitBreaker V)
      (routes : List String) (route : String) (log : List (String × CircuitEvent))
      → new base threshold timeout o ≡ ok t
      → Memᴰ route routes
      → of_route route log ≡ (run (start t) cs).breaker.events
      → vs.value (observed vs (for_routes vs m routes) log).state (route ∷ [])
        ≡ state_number (run (start t) cs).breaker.state
  gauge_shows_state base threshold timeout o t cs m routes route log e i same =
      let walk = (run-new-Sound base threshold timeout o t cs e).walk in
      state-observed (for_routes vs m routes) log route
      ∙ (ap (λ n. last_state n (of_route route log)) (for_routes-closed m routes route i)
          ∙ (ap (last_state 0) same
              ∙ last_state-Walk (run (start t) cs).breaker.events (run (start t) cs).breaker.state
                  walk))

  for_routes_same :
      (m : CircuitBreaker V) (routes : List String)
      → ((for_routes vs m routes).transitions_total ≡ m.transitions_total)
        × ((for_routes vs m routes).rejected_requests_total ≡ m.rejected_requests_total)
  unfolding for_routes
  for_routes_same m [] = (refl, refl)
  for_routes_same m (r ∷ routes) = for_routes_same (for_route vs m r) routes

  rejected-observed :
      (m : CircuitBreaker V) (log : List (String × CircuitEvent)) (route : String)
      → ((l : Labels) → vs.value m.rejected_requests_total l ≡ 0)
      → length log < exact
      → vs.value (observed vs m log).rejected_requests_total (route ∷ [])
        ≡ rejections (of_route route log)
  unfolding observed of_route labels_eq
  rejected-observed m [] route zeros small = zeros (route ∷ [])
  rejected-observed m ((r, rejected_request) ∷ log) route zeros small = ground (
    arith,
    rejected-observed m log route zeros (omega arith),
    rejected-observed m log r zeros (omega arith),
    rejections-le r log,
    vs.value-inc (observed vs m log).rejected_requests_total (r ∷ []) (route ∷ []),
  )
  rejected-observed m ((r, state_transition from to) ∷ log) route zeros small =
      ground (arith, rejected-observed m log route zeros (omega arith))

  transitions-observed :
      (m : CircuitBreaker V) (log : List (String × CircuitEvent)) (route : String)
      (a b : CircuitState)
      → ((l : Labels) → vs.value m.transitions_total l ≡ 0)
      → length log < exact
      → vs.value (observed vs m log).transitions_total (route ∷ state_name a ∷ state_name b ∷ [])
        ≡ transitions a b (of_route route log)
  unfolding observed of_route labels_eq
  transitions-observed m [] route a b zeros small = zeros _
  transitions-observed m ((r, rejected_request) ∷ log) route a b zeros small =
      ground (arith, transitions-observed m log route a b zeros (omega arith))
  transitions-observed m ((r, state_transition from to) ∷ log) route a b zeros small = ground (
    arith,
    transitions-observed m log route a b zeros (omega arith),
    transitions-observed m log r from to zeros (omega arith),
    transitions-le from to r log,
    state_name_lem from a,
    state_name_lem to b,
    vs.value-inc (observed vs m log).transitions_total (r ∷ state_name from ∷ state_name to ∷ [])
        (route ∷ state_name a ∷ state_name b ∷ []),
  )

  -- The collectors at the start, whatever their options are.
  abbrev pub fresh_metrics : Opts → Opts → Opts → CircuitBreaker V
  fresh_metrics o p q = record {
    state = vs.fresh o;
    transitions_total = vs.fresh p;
    rejected_requests_total = vs.fresh q;
  }

  -- The counters of a route count its own events: after fewer calls of all observers than a
  -- `float64` is exact for, the counter of rejected requests is the number of the route's
  -- rejections, and the counter of each pair of states is the number of the route's transitions
  -- from the one to the other.
  pub counters_lem :
      (o p q : Opts) (routes : List String) (log : List (String × CircuitEvent)) (route : String)
      → length log < exact
      → (vs.value
            (observed vs (for_routes vs (fresh_metrics o p q) routes) log).rejected_requests_total
            (route ∷ [])
          ≡ rejections (of_route route log))
        × ((a b : CircuitState)
            → vs.value
                (observed vs (for_routes vs (fresh_metrics o p q) routes) log).transitions_total
                (route ∷ state_name a ∷ state_name b ∷ [])
              ≡ transitions a b (of_route route log))
  counters_lem o p q routes log route small =
      let m = for_routes vs (fresh_metrics o p q) routes in
      let (e, f) = for_routes_same (fresh_metrics o p q) routes in
      (
        rejected-observed m log route (λ l. rw f (vs.value-fresh q l)) small,
        λ a b. transitions-observed m log route a b (λ l. rw e (vs.value-fresh p l)) small,
      )
