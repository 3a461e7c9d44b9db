-- ===== src/Proxy/CircuitBreaker/Transitions.antt =====
-- The state transitions that internal/proxy/circuit_breaker.go reports to its observer.
use dev_gate.Common.{
  ℕ, ◌<◌, ◌≡◌, ◌⊎◌, List, [], ◌∷◌, Option, arith, ℤ, ok, pos_of_ltz, inl, inr, get_elem?,
  Option-cases,
}
use dev_gate.Proxy.CircuitBreaker.{
  CircuitState, CircuitOutcome, CircuitEvent, CircuitPermit, CircuitBreaker, closed, opened,
  half_open, rejected_request, state_transition, new, acquire_permit, record_outcome,
}
use dev_gate.Proxy.CircuitBreaker.Calls.{System, Call, arrive, finish, step, run, start}

-- The four edges of the diagram.
pub data Edge : CircuitState → CircuitState → Type 0 where
  trip : Edge closed opened
  try_again : Edge opened half_open
  recover : Edge half_open closed
  relapse : Edge half_open opened

-- The reported transitions form a walk along the edges from `closed` to the given state.
abbrev pub Walk : List CircuitEvent → CircuitState → Type 0
Walk [] st = st ≡ closed
Walk (rejected_request ∷ es) st = Walk es st
Walk (state_transition from to ∷ es) st = (to ≡ st) × Edge from to × Walk es from

-- The walk, and the failure counter: below the threshold, and zero unless the circuit is closed.
pub record Sound (t : CircuitBreaker) : Type 0 where
  pub walk : Walk t.events t.state
  pub counter : t.consecutive_failures < t.failure_threshold
  pub reset : (t.state ≡ closed) ⊎ (t.consecutive_failures ≡ 0)

ruleset edges = (trip, try_again, recover, relapse)

acquire_permit-Sound : (t : CircuitBreaker) (now : ℕ) → Sound t → Sound (acquire_permit t now).0
unfolding acquire_permit
acquire_permit-Sound t now v = grind (arith, edges)

record_outcome-Sound :
    (t : CircuitBreaker) (p : CircuitPermit) (outcome : CircuitOutcome) (now : ℕ)
    → Sound t
    → Sound (record_outcome t p outcome now)
unfolding record_outcome
record_outcome-Sound t p outcome now v = grind (arith, edges)

new-Sound :
    {B O : Type 0} (base : Option B) (threshold timeout : ℤ) (o : Option O) (t : CircuitBreaker)
    → new base threshold timeout o ≡ ok t
    → Sound t
unfolding new
new-Sound base threshold timeout o t e = ground (arith, pos_of_ltz threshold)

step-Sound : (s : System) (c : Call) → Sound s.breaker → Sound (step s c).breaker
unfolding step
step-Sound s (arrive now) v = ground (arith, acquire_permit-Sound s.breaker now v)
step-Sound s (finish i outcome now) v = elim (Option-cases (get_elem? s.in_flight i)) [
  | inl e ↦ rw e v
  | inr (p, e) ↦ rw e (record_outcome-Sound s.breaker p outcome now v)
]

run-Sound : (s : System) (cs : List Call) → Sound s.breaker → Sound (run s cs).breaker
unfolding run
run-Sound s [] v = v
run-Sound s (c ∷ cs) v = run-Sound (step s c) cs (step-Sound s c v)

-- In every history of concurrent calls of a new breaker, the transitions that its observer was told
-- of are a walk along the four edges of the diagram from `closed` to the present state, the failure
-- counter is below the threshold, and it is zero unless the circuit is closed.
pub run-new-Sound :
    {B O : Type 0} (base : Option B) (threshold timeout : ℤ) (o : Option O) (t : CircuitBreaker)
    (cs : List Call)
    → new base threshold timeout o ≡ ok t
    → Sound (run (start t) cs).breaker
run-new-Sound base threshold timeout o t cs e =
    run-Sound (start t) cs (new-Sound base threshold timeout o t e)
