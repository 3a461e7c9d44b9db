-- ===== src/Proxy/CircuitBreaker.antt =====
-- internal/proxy/circuit_breaker.go. The receiver's fields are a record, a method returns the new
-- record, and each reading of the clock `t.now()` is an argument, in nanoseconds: `-` on ℕ gives
-- the branch of `now.Sub(t.openedAt) < t.openTimeout` that the signed, saturating `Sub` gives,
-- since the timeout is positive. The observer's calls are collected in `events`, the latest first.
pub mod Calls
pub mod Transitions
pub mod Trips
use dev_gate.Common.{
  ℕ, ◌+◌, ◌-◌, ◌%◌, Bool, true, false, not, ◌&&◌, List, [], ◌∷◌, Option, none, some, ltb, leb, ◌==◌,
  if◌then◌else◌, word, ℤ, pos, pos_part, ltz, lez, Result, err, ok, ◌>>◌, reject,
}
use dev_gate.Http.{Exchange}

pub data CircuitState : Type 0 where
  closed opened half_open : CircuitState

pub data CircuitOutcome : Type 0 where
  ignored success failure : CircuitOutcome

pub data CircuitEvent : Type 0 where
  rejected_request : CircuitEvent
  state_transition : CircuitState → CircuitState → CircuitEvent

pub record CircuitPermit : Type 0 where
  pub generation : ℕ  -- uint64
  pub probe : Bool

pub record CircuitBreaker : Type 0 where
  pub failure_threshold : ℕ
  pub open_timeout : ℕ
  pub generation : ℕ  -- uint64
  pub state : CircuitState
  pub consecutive_failures : ℕ
  pub opened_at : ℕ  -- 0 stands for the zero `time.Time`
  pub events : List CircuitEvent

pub data ConfigError : Type 0 where
  base_nil threshold_not_positive timeout_not_positive observer_nil : ConfigError

-- NewCircuitBreakerTransport
unfoldable pub new {ℓ κ} :
    {B : Type ℓ} {O : Type κ} → Option B → ℤ → ℤ → Option O → Result ConfigError CircuitBreaker
new none failure_threshold open_timeout observer = err base_nil
new (some base) failure_threshold open_timeout observer = do
  reject (ltz failure_threshold (pos 1)) threshold_not_positive
  reject (lez open_timeout (pos 0)) timeout_not_positive
  elim observer [
    | none ↦ err observer_nil
    | some o ↦ ok (record {
      failure_threshold = pos_part failure_threshold;
      open_timeout = pos_part open_timeout;
      generation = 0;
      state = closed;
      consecutive_failures = 0;
      opened_at = 0;
      events = [];
    })
  ]

abbrev same_state : CircuitState → CircuitState → Bool
same_state closed closed = true
same_state opened opened = true
same_state half_open half_open = true
same_state _ _ = false

-- transitionToLocked
transition_to : CircuitBreaker → CircuitState → CircuitBreaker
transition_to t to =
    if same_state t.state to
    then t
    else record t { state = to; events = state_transition t.state to ∷ t.events }

-- The `switch t.state` of acquirePermit; `none` is ErrCircuitOpen.
acquire_in : CircuitState → CircuitBreaker → ℕ → CircuitBreaker × Option CircuitPermit
unfolding transition_to
acquire_in closed t now = (t, some (record { generation = t.generation; probe = false }))
acquire_in opened t now =
    if ltb (now - t.opened_at) t.open_timeout
    then (t, none)
    else (transition_to t half_open, some (record { generation = t.generation; probe = true }))
acquire_in half_open t now = (t, none)

unfoldable pub acquire_permit : CircuitBreaker → ℕ → CircuitBreaker × Option CircuitPermit
unfolding acquire_in
acquire_permit t now = acquire_in t.state t now

abbrev next_generation : ℕ → ℕ
next_generation g = (g + 1) % word

-- The first `switch outcome` of recordOutcome: a probe while the circuit is half open.
record_probe : CircuitBreaker → CircuitOutcome → ℕ → CircuitBreaker
unfolding transition_to
record_probe t outcome now = record u {
  consecutive_failures = 0;
  generation = next_generation u.generation;
}
  where
    u : CircuitBreaker
    u = elim outcome [
      | success ↦ record (transition_to t closed) { opened_at = 0 }
      | failure ↦ record (transition_to t opened) { opened_at = now }
      | ignored ↦ transition_to t opened
    ]

-- The second one: a request that was let through while the circuit is closed.
record_request : CircuitBreaker → CircuitOutcome → ℕ → CircuitBreaker
unfolding transition_to
record_request t success now = record t { consecutive_failures = 0 }
record_request t failure now =
    if leb t.failure_threshold (t.consecutive_failures + 1)
    then record (transition_to t opened) {
      opened_at = now;
      consecutive_failures = 0;
      generation = next_generation t.generation;
    }
    else record t { consecutive_failures = t.consecutive_failures + 1 }
record_request t ignored now = t

unfoldable pub record_outcome : CircuitBreaker → CircuitPermit → CircuitOutcome → ℕ → CircuitBreaker
unfolding record_probe record_request
record_outcome t p outcome now =
    if not (p.generation == t.generation)
    then t
    else if p.probe
    then (if same_state t.state half_open then record_probe t outcome now else t)
    else (if same_state t.state closed then record_request t outcome now else t)

unfoldable pub classify : Exchange → CircuitOutcome
classify x = if x.canceled then ignored else if x.error then failure else elim x.status_code [
  | none ↦ ignored
  | some code ↦ if leb 500 code && ltb code 600 then failure else success
]

-- One call of RoundTrip with no other between its two critical sections. The base transport is
-- the function `base`, and `none` is the answer without it, ErrCircuitOpen.
finish_trip :
    (Unit {0} → Exchange)
    → ℕ
    → CircuitBreaker × Option CircuitPermit
    → CircuitBreaker × Option Exchange
unfolding record_outcome classify
finish_trip base later (t, none) = (record t { events = rejected_request ∷ t.events }, none)
finish_trip base later (t, some p) =
    let x = base tt in (record_outcome t p (classify x) later, some x)

unfoldable pub round_trip :
    CircuitBreaker → ℕ → (Unit {0} → Exchange) → ℕ → CircuitBreaker × Option Exchange
unfolding acquire_permit finish_trip
round_trip t now base later = finish_trip base later (acquire_permit t now)
