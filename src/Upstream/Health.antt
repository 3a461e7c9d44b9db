-- ===== src/Upstream/Health.antt =====
-- internal/upstream/health.go. A method returns the new record and its result. The counters and the
-- thresholds, which the constructor keeps positive, are naturals.
use dev_gate.Common.{
  ℕ, zero, suc, ◌+◌, ◌<◌, ◌≡◌, Bool, true, false, not, ◌&&◌, ◌||◌, arith, leb, ltb, if◌then◌else◌,
  ℤ, pos, pos_part, lez, pos_of_lez, Result, ok, ◌>>◌, reject,
}

pub record EndpointHealth (Url : Type 0) : Type 0 where
  pub target : Url
  pub healthy : Bool
  pub consecutive_successes : ℕ
  pub success_threshold : ℕ
  pub consecutive_failures : ℕ
  pub failure_threshold : ℕ

pub data ThresholdError : Type 0 where
  success_threshold_not_positive failure_threshold_not_positive : ThresholdError

module _ {Url : Type 0} where
  unfoldable pub new_endpoint_health : Url → ℤ → ℤ → Result ThresholdError (EndpointHealth Url)
  new_endpoint_health target success_threshold failure_threshold = do
    reject (lez success_threshold (pos 0)) success_threshold_not_positive
    reject (lez failure_threshold (pos 0)) failure_threshold_not_positive
    ok (record {
      target = target;
      healthy = true;
      consecutive_successes = 0;
      success_threshold = pos_part success_threshold;
      consecutive_failures = 0;
      failure_threshold = pos_part failure_threshold;
    })

  unfoldable pub record_success : EndpointHealth Url → EndpointHealth Url × Bool
  record_success h =
      let g : EndpointHealth Url = record h { consecutive_failures = 0 } in
      if g.healthy
      then (g, false)
      else if leb g.success_threshold (g.consecutive_successes + 1)
      then (record g { healthy = true; consecutive_successes = 0 }, true)
      else (record g { consecutive_successes = g.consecutive_successes + 1 }, false)

  unfoldable pub record_failure : EndpointHealth Url → EndpointHealth Url × Bool
  record_failure h =
      let g : EndpointHealth Url = record h { consecutive_successes = 0 } in
      if not g.healthy
      then (g, false)
      else if leb g.failure_threshold (g.consecutive_failures + 1)
      then (record g { healthy = false; consecutive_failures = 0 }, true)
      else (record g { consecutive_failures = g.consecutive_failures + 1 }, false)

  -- Only the counter towards the other state is in use, and it is below its threshold.
  pub record IsValid (h : EndpointHealth Url) : Type 0 where
    pub towards_healthy : h.consecutive_successes < h.success_threshold
    pub towards_unhealthy : h.consecutive_failures < h.failure_threshold
    pub no_successes : h.healthy ≡ true → h.consecutive_successes ≡ 0
    pub no_failures : h.healthy ≡ false → h.consecutive_failures ≡ 0

  pub new_endpoint_health-IsValid :
      (u : Url) (s f : ℤ) (h : EndpointHealth Url) → new_endpoint_health u s f ≡ ok h → IsValid h
  unfolding new_endpoint_health
  new_endpoint_health-IsValid u s f h e = ground (arith, pos_of_lez s, pos_of_lez f)

  pub record_success-IsValid : (h : EndpointHealth Url) → IsValid h → IsValid (record_success h).0
  unfolding record_success
  record_success-IsValid h v = ground arith

  pub record_failure-IsValid : (h : EndpointHealth Url) → IsValid h → IsValid (record_failure h).0
  unfolding record_failure
  record_failure-IsValid h v = ground arith

  pub failures : ℕ → EndpointHealth Url → EndpointHealth Url
  failures zero h = h
  failures (suc n) h = failures n (record_failure h).0

  pub successes : ℕ → EndpointHealth Url → EndpointHealth Url
  successes zero h = h
  successes (suc n) h = successes n (record_success h).0

  -- After n failures in a row an endpoint is healthy exactly when it was so before and the
  -- failures counted, the earlier ones included, are below the threshold.
  pub healthy-failures :
      (n : ℕ) (h : EndpointHealth Url)
      → IsValid h
      → (failures n h).healthy ≡ h.healthy && ltb (h.consecutive_failures + n) h.failure_threshold
  unfolding failures record_failure
  healthy-failures zero h v = ground arith
  healthy-failures (suc n) h v =
      ground (arith, healthy-failures n (record_failure h).0 (record_failure-IsValid h v))

  -- After n successes in a row an endpoint is healthy exactly when it was so before or the
  -- successes counted, the earlier ones included, reach the threshold.
  pub healthy-successes :
      (n : ℕ) (h : EndpointHealth Url)
      → IsValid h
      → (successes n h).healthy ≡ h.healthy || leb h.success_threshold (h.consecutive_successes + n)
  unfolding successes record_success
  healthy-successes zero h v = ground arith
  healthy-successes (suc n) h v =
      ground (arith, healthy-successes n (record_success h).0 (record_success-IsValid h v))

  -- A recorded result reports a change exactly when it turned the endpoint's health over.
  record_reports_change :
      (h : EndpointHealth Url)
      → ((record_success h).1 ≡ not h.healthy && (record_success h).0.healthy)
        × ((record_failure h).1 ≡ h.healthy && not (record_failure h).0.healthy)
  unfolding record_success record_failure
  record_reports_change h = ground arith
