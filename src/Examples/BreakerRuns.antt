-- ===== src/Examples/BreakerRuns.antt =====
-- A circuit breaker of internal/proxy with threshold 2 and timeout 10.
use dev_gate.Common.{ℕ, ◌≡◌, refl, false, List, [], ◌∷◌, Option, some, arith, ok, pos}
use dev_gate.Http.{Exchange}
use dev_gate.Proxy.CircuitBreaker.{
  CircuitBreaker, CircuitOutcome, closed, opened, half_open, failure, new, classify, acquire_permit,
  record_outcome,
}
use dev_gate.Proxy.CircuitBreaker.Calls.{
  Call, arrive, finish, step, run, start, live_probes, probes_expected, after_probe,
  live_probes-run, half_open_resolves,
}
use dev_gate.Proxy.CircuitBreaker.Transitions.{Sound, run-new-Sound}
use dev_gate.Proxy.CircuitBreaker.Trips.{Trip, serve, serve-failures}

abbrev pub some_base : Option (Unit {0})
some_base = some tt

abbrev pub fresh : CircuitBreaker
fresh = record {
  failure_threshold = 2;
  open_timeout = 10;
  generation = 0;
  state = closed;
  consecutive_failures = 0;
  opened_at = 0;
  events = [];
}

pub fresh_made : new some_base (pos 2) (pos 10) some_base ≡ ok fresh
unfolding new
fresh_made = refl

-- Two failures open the circuit, and a request after the timeout becomes the probe.
abbrev pub outage : List Call
outage =
    arrive 1
    ∷ arrive 2
    ∷ finish 1 failure 3
    ∷ finish 0 failure 4
    ∷ arrive 5
    ∷ arrive 20
    ∷ arrive 21
    ∷ []

outage_half_open : (run (start fresh) outage).breaker.state ≡ half_open
unfolding run acquire_permit record_outcome
outage_half_open = refl

live_probes-run_example :
    live_probes (run (start fresh) outage).breaker.generation (run (start fresh) outage).in_flight
    ≡ probes_expected (run (start fresh) outage).breaker.state
live_probes-run_example =
    live_probes-run some_base (pos 2) (pos 10) some_base fresh outage fresh_made (omega arith)

half_open_resolves_example :
    (i : ℕ) × ((outcome : CircuitOutcome) (now : ℕ)
      → (step (run (start fresh) outage) (finish i outcome now)).breaker.state
        ≡ after_probe outcome)
half_open_resolves_example =
    half_open_resolves some_base (pos 2) (pos 10) some_base fresh outage fresh_made (omega arith)
      outage_half_open

run-new-Sound_example : Sound (run (start fresh) outage).breaker
run-new-Sound_example = run-new-Sound some_base (pos 2) (pos 10) some_base fresh outage fresh_made

abbrev bad_gateway : Exchange
bad_gateway = record { canceled = false; error = false; status_code = some 502 }

abbrev refused : Trip
refused = record { now = 3; exchange = bad_gateway; later = 4 }

bad_gateway_fails : classify bad_gateway ≡ failure
unfolding classify
bad_gateway_fails = refl

serve-failures_example : (serve fresh (refused ∷ refused ∷ [])).state ≡ opened
serve-failures_example =
    serve-failures fresh (refused ∷ refused ∷ []) refl (omega arith) (omega arith)
      (bad_gateway_fails, (bad_gateway_fails, tt))

abbrev tripped : CircuitBreaker
tripped = record fresh { state = opened; opened_at = 5 }
