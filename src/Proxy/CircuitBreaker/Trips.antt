-- ===== src/Proxy/CircuitBreaker/Trips.antt =====
-- RoundTrip of internal/proxy/circuit_breaker.go, one call after the other.
use dev_gate.Common.{
  ℕ, suc, ◌+◌, ◌-◌, ◌%◌, ◌≤◌, ◌<◌, ◌≡◌, sym, subst, ◌⊎◌, Bool, true, false, List, [], ◌∷◌, none,
  some, arith, length, if◌then◌else◌, ◌==◌, word,
}
use dev_gate.Http.{Exchange}
use dev_gate.Proxy.CircuitBreaker.{
  CircuitBreaker, CircuitOutcome, closed, opened, half_open, success, failure, rejected_request,
  state_transition, classify, round_trip,
}
use dev_gate.Proxy.CircuitBreaker.Calls.{after_probe}

-- One request: the clock before it, what the base transport answers, the clock after it.
pub record Trip : Type 0 where
  pub now : ℕ
  pub exchange : Exchange
  pub later : ℕ

unfoldable pub serve : CircuitBreaker → List Trip → CircuitBreaker
serve t [] = t
serve t (r ∷ rs) = serve (round_trip t r.now (λ _. r.exchange) r.later).0 rs

abbrev pub AllFail : List Trip → Type 0
AllFail [] = Unit {0}
AllFail (r ∷ rs) = (classify r.exchange ≡ failure) × AllFail rs

round_trip-failure :
    (t : CircuitBreaker) (r : Trip)
    → t.state ≡ closed
    → t.consecutive_failures + 1 < t.failure_threshold
    → classify r.exchange ≡ failure
    → (round_trip t r.now (λ _. r.exchange) r.later).0
      ≡ record t { consecutive_failures = t.consecutive_failures + 1 }
unfolding round_trip
round_trip-failure t r c below f = ground arith

round_trip_last :
    (t : CircuitBreaker) (r : Trip)
    → t.state ≡ closed
    → t.consecutive_failures + 1 ≤ t.failure_threshold
    → classify r.exchange ≡ failure
    → (round_trip t r.now (λ _. r.exchange) r.later).0.state
      ≡ (if t.consecutive_failures + 1 == t.failure_threshold then opened else closed)
unfolding round_trip
round_trip_last t r c below f = ground arith

abbrev pub is_success : CircuitOutcome → Bool
is_success success = true
is_success _ = false

-- A closed circuit stays closed through consecutive failures while their number, those before
-- included, is below the threshold, and the failure that reaches the threshold opens it.
pub serve-failures :
    (t : CircuitBreaker) (rs : List Trip)
    → t.state ≡ closed
    → t.consecutive_failures < t.failure_threshold
    → t.consecutive_failures + length rs ≤ t.failure_threshold
    → AllFail rs
    → (serve t rs).state
      ≡ (if t.consecutive_failures + length rs == t.failure_threshold then opened else closed)
unfolding serve
serve-failures t [] c below most f = ground arith
serve-failures t (r ∷ []) c below most f = round_trip_last t r c (omega arith) f.0
serve-failures t (r ∷ q ∷ rs) c below most f =
    let u : CircuitBreaker = record t { consecutive_failures = t.consecutive_failures + 1 } in
    let e : t.consecutive_failures + suc (suc (length rs))
        ≡ t.consecutive_failures + 1 + suc (length rs) =
      omega arith in
    rw e (
      subst
        (λ (w : CircuitBreaker). (serve w (q ∷ rs)).state ≡ (
          if u.consecutive_failures + suc (length rs) == t.failure_threshold
          then opened
          else closed))
        (sym (round_trip-failure t r c (omega arith) f.0))
        (serve-failures u (q ∷ rs) c (omega arith) (omega arith) f.1))

-- A round trip in a closed circuit asks the upstream and returns its answer, whatever it is; a
-- success resets the failure counter, and neither a success nor an ignored outcome is reported or
-- changes anything else.
pub round_trip-closed :
    (t : CircuitBreaker) (now later : ℕ) (base : Unit {0} → Exchange)
    → t.state ≡ closed
    → ((round_trip t now base later).1 ≡ some (base tt))
      × ((classify (base tt) ≡ failure)
          ⊎ ((round_trip t now base later).0 ≡ (
              if is_success (classify (base tt))
              then record t { consecutive_failures = 0 }
              else t)))
unfolding round_trip
round_trip-closed t now later base c = (ground arith, ground arith)

-- A round trip in an open circuit before the timeout is rejected, whatever the upstream would
-- answer, and changes nothing but the log.
pub round_trip-opened_early :
    (t : CircuitBreaker) (now later : ℕ) (base : Unit {0} → Exchange)
    → t.state ≡ opened
    → now - t.opened_at < t.open_timeout
    → round_trip t now base later ≡ (record t { events = rejected_request ∷ t.events }, none)
unfolding round_trip
round_trip-opened_early t now later base c e = ground arith

-- The round trip in an open circuit from the timeout on is the probe: its answer is returned and
-- decides the next state, the counter is zero, the generation is new, and the two transitions are
-- reported.
pub round_trip-opened_late :
    (t : CircuitBreaker) (now later : ℕ) (base : Unit {0} → Exchange)
    → t.state ≡ opened
    → t.open_timeout ≤ now - t.opened_at
    → let (u, answer) = round_trip t now base later in
      (answer ≡ some (base tt))
      × (u.state ≡ after_probe (classify (base tt)))
      × (u.consecutive_failures ≡ 0)
      × (u.generation ≡ (t.generation + 1) % word)
      × (u.events
          ≡ state_transition half_open (after_probe (classify (base tt)))
            ∷ state_transition opened half_open
            ∷ t.events)
unfolding round_trip
round_trip-opened_late t now later base c e =
    (ground arith, ground arith, ground arith, ground arith, ground arith)
