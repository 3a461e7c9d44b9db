-- ===== src/Config/Started.antt =====
-- What the settings of internal/config allow the constructors of internal/proxy.
use dev_gate.Common.{
  ◌<◌, ◌≤◌, ◌≡◌, true, false, inl, inr, List, [], ◌∷◌, some, arith, All, pos, eqz, pos_part, ok,
  Option-cases, Result-cases,
}
use dev_gate.Config.Settings.{
  Config, Sources, check_cidrs, check_upstream, defaults, load, load_config_file, validate,
}
use dev_gate.Config.Route.{FileConfig}
use dev_gate.Proxy.CircuitBreaker.{CircuitBreaker, closed}
use dev_gate.Proxy.CircuitBreaker
use dev_gate.Proxy.Retry.{RetryTransport}
use dev_gate.Proxy.Retry

module _ {P : Type 0} (src : Sources P) where
  -- A prefix that may be trusted: a valid one, masked, that is not of every address.
  abbrev pub IsTrustable : P → Type 0
  IsTrustable p =
      (src.prefix_is_valid p ≡ true) × (src.is_masked p ≡ true) × (eqz (src.bits p) (pos 0) ≡ false)

  check_cidrs-IsTrustable : (ps : List P) → check_cidrs src ps ≡ ok tt → All IsTrustable ps
  unfolding check_cidrs
  check_cidrs-IsTrustable [] e = tt
  check_cidrs-IsTrustable (p ∷ ps) e = (
    (ground (arith, e), ground (arith, e), ground (arith, e)),
    check_cidrs-IsTrustable ps (ground (arith, e)),
  )

  pub check_upstream_of_validate :
      (c : Config P) → validate src c ≡ ok tt → check_upstream src c ≡ ok tt
  unfolding validate
  check_upstream_of_validate c e = ground (arith, e)

  pub load-validate :
      (c : Config P)
      → load src ≡ ok c
      → (d : Config P) × (f : FileConfig) × (validate src d ≡ ok tt)
        × (c ≡ record d { routes = f.routes; error_responses = f.error_responses })
  unfolding load
  load-validate c e = elim (Option-cases (src.parse_environment defaults)) [
    | inl n ↦ absurd (ground (arith, e, n))
    | inr (d, n) ↦ elim (Result-cases (validate src d)) [
      | inl (x, v) ↦ absurd (ground (arith, e, n, v))
      | inr (u, v) ↦ elim (Result-cases (load_config_file src d.config_file)) [
        | inl (x, g) ↦ absurd (ground (arith, e, n, v, g))
        | inr (f, g) ↦ (d, f, v, ground (arith, e, n, v, g))
      ]
    ]
  ]

  -- What the proxy needs of the settings.
  abbrev pub IsReady : Config P → Type 0
  IsReady c =
      (t : RetryTransport) × (Retry.new c.upstream_max_attempts c.upstream_retry_base_delay ≡ ok t)
      × (0 < t.max_attempts)
      × (t.max_attempts ≤ 5)
      × (0 < t.base_delay)
      × All IsTrustable c.trusted_proxy_cidrs

  validate-IsReady : (c : Config P) → validate src c ≡ ok tt → IsReady c
  unfolding check_upstream Retry.new
  validate-IsReady c e =
      let v = check_upstream_of_validate c e in
      (
        record {
          base_delay = pos_part c.upstream_retry_base_delay;
          max_attempts = pos_part c.upstream_max_attempts;
        },
        ground (arith, v),
        ground (arith, v),
        ground (arith, v),
        ground (arith, v),
        check_cidrs-IsTrustable c.trusted_proxy_cidrs (ground (arith, v)),
      )

  -- Settings that Load accepts, whatever the environment and the configuration file, start the proxy:
  -- RetryTransport is created, for between 1 and 5 attempts and a positive base delay, as is a circuit
  -- breaker of a positive threshold and timeout, and each trusted proxy is a valid masked prefix that is not of every address.
  pub load_starts :
      {B O : Type 0} (base : B) (observer : O) (c : Config P)
      → load src ≡ ok c
      → IsReady c
        × (b : CircuitBreaker) × (CircuitBreaker.new
              (some base)
              c.upstream_circuit_failure_threshold
              c.upstream_circuit_open_timeout
              (some observer)
            ≡ ok b)
        × (0 < b.failure_threshold)
        × (0 < b.open_timeout)
  unfolding check_upstream CircuitBreaker.new
  load_starts base observer c e =
      let (d, f, v, q) = load-validate c e in
      let ready : IsReady c = rw q (validate-IsReady d v) in
      let passed = check_upstream_of_validate d v in
      (
        ready,
        record {
          failure_threshold = pos_part c.upstream_circuit_failure_threshold;
          open_timeout = pos_part c.upstream_circuit_open_timeout;
          generation = 0;
          state = closed;
          consecutive_failures = 0;
          opened_at = 0;
          events = [];
        },
        ground (arith, passed, q),
        ground (arith, passed),
        ground (arith, passed),
      )
