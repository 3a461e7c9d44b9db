-- ===== src/Examples/RetryRuns.antt =====
-- internal/proxy/retry.go on an upstream that fails twice.
use dev_gate.Common.{
  ℕ, ◌+◌, ◌-◌, ◌*◌, ◌≤◌, ◌<◌, ◌≡◌, ◌≢◌, refl, true, false, [], ◌∷◌, arith, ltb, pos, ok, codes,
  text_eq,
}
use dev_gate.Proxy.Retry.{
  RetryTransport, RetryRequest, Script, answered, panicked, new, should_retry, shifted, retry_delay,
  retry_loop, round_trip,
}
use dev_gate.Proxy.Retry.Rounds.{IsSound, round_trip-IsSound}
use dev_gate.Proxy.Retry.Delays.{sum, round_trip_delays}

abbrev retries : RetryTransport
retries = record { base_delay = 100; max_attempts = 4 }

retries_made : new (pos 4) (pos 100) ≡ ok retries
unfolding new
retries_made = refl

abbrev get_request : RetryRequest
get_request = record { method = codes "GET"; no_body = true }

-- Two failures, and half of each bound as the delay.
abbrev flaky : Script ℕ
flaky = record {
  attempt = λ k. record { response = k; failed = ltb k 2; canceled = false };
  draw = λ k n. n - 1;
  interrupted = λ k. false;
}

draws_below : (k n : ℕ) → 0 < n → flaky.draw k n < n
draws_below k n h = omega (arith, h)

round_trip-IsSound_example :
    IsSound retries get_request flaky 0 4 (round_trip retries get_request flaky)
round_trip-IsSound_example = round_trip-IsSound retries get_request flaky (omega arith)

enough_room : 100 * shifted (retries.max_attempts - 1) ≤ 9223372036854775808
unfolding shifted
enough_room = omega arith

round_trip_delays_example :
    ((round_trip retries get_request flaky).reply ≢ panicked)
    × (sum (round_trip retries get_request flaky).waited + 100
        ≤ 100 * shifted (retries.max_attempts - 1))
round_trip_delays_example =
    round_trip_delays retries get_request flaky draws_below (omega arith) enough_room

third_answers :
    round_trip retries get_request flaky
    ≡ record { reply = answered (flaky.attempt 2); calls = 3; waited = 199 ∷ 99 ∷ [] }
unfolding round_trip retry_loop should_retry retry_delay shifted text_eq
third_answers = refl

-- A base delay of 2 ^ 60 nanoseconds, some 36 years, overflows at the fourth retry.
overflows : retry_delay 1152921504606846976 3 ≡ retry_delay 9223372036854775808 0
unfolding retry_delay shifted
overflows = refl
