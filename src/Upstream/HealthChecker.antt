-- ===== src/Upstream/HealthChecker.antt =====
-- internal/upstream/health_checker.go: the constructor, what a probe makes of an exchange, what a
-- checked target records, and the rounds over concurrent workers.
pub mod Counting
pub mod Rounds
pub mod Recorded
pub mod Targets
use dev_gate.Common.{
  ℕ, zero, suc, ◌+◌, List, [], ◌∷◌, ◌++◌, length, get_elem?, set, Bool, true, false, not, ◌||◌,
  Option, none, some, String, if◌then◌else◌, ltb, leb, is_empty, Text, codes, has_prefix, ℤ, pos,
  pos_part, lez, Result, ok, ◌>>◌, reject,
}
use dev_gate.Upstream.HealthTracker.{HealthTracker, record_success_at, record_failure_at, replace}

pub record HealthChecker : Type 0 where
  pub interval : ℤ
  pub timeout : ℤ
  pub health_path : Text
  pub max_concurrent_probes : ℤ

pub data CheckerError : Type 0 where
  client_nil tracker_nil interval_not_positive timeout_not_positive path_missing : CheckerError
  path_relative probes_not_positive observer_nil : CheckerError

-- The tests are whether the client, the tracker and the observer are nil.
unfoldable pub new : Bool → Bool → ℤ → ℤ → Text → ℤ → Bool → Result CheckerError HealthChecker
unfolding has_prefix
new no_client no_tracker interval timeout health_path max_concurrent_probes no_observer = do
  reject no_client client_nil
  reject no_tracker tracker_nil
  reject (lez interval (pos 0)) interval_not_positive
  reject (lez timeout (pos 0)) timeout_not_positive
  reject (is_empty health_path) path_missing
  reject (not (has_prefix health_path (codes "/"))) path_relative
  reject (lez max_concurrent_probes (pos 0)) probes_not_positive
  reject no_observer observer_nil
  ok (record {
    interval = interval;
    timeout = timeout;
    health_path = health_path;
    max_concurrent_probes = max_concurrent_probes;
  })

-- What the request for a probe meets.
pub data Exchange : Type 0 where
  not_created not_sent : Exchange
  received : (body_failed : Bool) → (status : ℕ) → Exchange

pub data ProbeError : Type 0 where
  create_failed send_failed read_failed context_done : ProbeError
  bad_status : ℕ → ProbeError

unfoldable pub probe : Exchange → Option ProbeError
probe not_created = some create_failed
probe not_sent = some send_failed
probe (received true status) = some read_failed
probe (received false status) =
    if ltb status 200 || leb 300 status then some (bad_status status) else none

pub record CheckResult (Url : Type 0) : Type 0 where
  pub target : Url
  pub healthy : Bool
  pub changed : Bool
  pub tracked : Bool
  pub error : Option ProbeError

module _ {Url : Type 0} (url_string : Url → String) where
  -- checkTarget; `done` is `ctx.Err() != nil` after the probe.
  unfoldable pub check_target :
      HealthTracker Url → Url → Exchange → (done : Bool) → HealthTracker Url × CheckResult Url
  unfolding probe record_success_at record_failure_at
  check_target t target exchange done =
      if done
      then (
        t,
        record {
          target = target;
          healthy = false;
          changed = false;
          tracked = false;
          error = some context_done;
        },
      )
      else elim (probe exchange) [
        | some e ↦
            let (t', changed, tracked) = record_failure_at url_string t target in
            (
              t',
              record {
                target = target;
                healthy = false;
                changed = changed;
                tracked = tracked;
                error = some e;
              },
            )
        | none ↦
            let (t', changed, tracked) = record_success_at url_string t target in
            (
              t',
              record {
                target = target;
                healthy = true;
                changed = changed;
                tracked = tracked;
                error = none;
              },
            )
      ]

-- runRound. The channel of jobs is a list; a worker is the index of the job that it has taken, or
-- `none` between two jobs; and the slice of results holds `none` for its zero values.
pub record Round (Url : Type 0) : Type 0 where
  pub tracker : HealthTracker Url
  pub jobs : List ℕ
  pub workers : List (Option ℕ)
  pub results : List (Option (CheckResult Url))

-- The worker at a place takes a job or ends its check; or the endpoints are replaced meanwhile.
pub data Move (Url : Type 0) : Type 0 where
  take finish : (place : ℕ) → Move Url
  publish : List Url → Move Url

-- The indices from `i` on.
abbrev pub indices : ℕ → ℕ → List ℕ
indices i zero = []
indices i (suc n) = i ∷ indices (i + 1) n

abbrev pub zero_results : {Url : Type 0} → ℕ → List (Option (CheckResult Url))
zero_results zero = []
zero_results (suc n) = none ∷ zero_results n

-- The number of workers that are started.
unfoldable pub worker_count : {Url : Type 0} → HealthChecker → List Url → ℕ
worker_count c us =
    if ltb (length us) (pos_part c.max_concurrent_probes)
    then length us
    else pos_part c.max_concurrent_probes

abbrev pub idle_workers : ℕ → List (Option ℕ)
idle_workers zero = []
idle_workers (suc n) = none ∷ idle_workers n

unfoldable pub start : {Url : Type 0} → HealthChecker → HealthTracker Url → List Url → Round Url
unfolding worker_count
start c t us = record {
  tracker = t;
  jobs = indices 0 (length us);
  workers = idle_workers (worker_count c us);
  results = zero_results (length us);
}

-- What the probe of the target at an index meets, and whether the context is done after it.
abbrev pub World : Type 0
World = ℕ → Exchange × Bool

module _ {Url : Type 0} (url_string : Url → String) (world : World) (us : List Url) where
  -- A move; `none` where it cannot be made.
  unfoldable pub step : Round Url → Move Url → Option (Round Url)
  unfolding check_target replace
  step r (take place) = elim r.jobs [
    | [] ↦ none
    | i ∷ js ↦ elim (get_elem? r.workers place) [
      | none ↦ none
      | some worker ↦ elim worker [
        | some j ↦ none
        | none ↦ some (record r { jobs = js; workers = set r.workers place (some i) })
      ]
    ]
  ]
  step r (finish place) = elim (get_elem? r.workers place) [
    | none ↦ none
    | some worker ↦ elim worker [
      | none ↦ none
      | some i ↦ elim (get_elem? us i) [
        | none ↦ none
        | some u ↦
            let (t, result) = check_target url_string r.tracker u (world i).0 (world i).1 in
            some (record r {
              tracker = t;
              workers = set r.workers place none;
              results = set r.results i (some result);
            })
      ]
    ]
  ]
  step r (publish endpoints) =
      some (record r { tracker = (replace url_string r.tracker endpoints).0 })

  unfoldable pub moves : Round Url → List (Move Url) → Option (Round Url)
  unfolding step
  moves r [] = some r
  moves r (m ∷ ms) = elim (step r m) [ none ↦ none | some r' ↦ moves r' ms ]

-- The calls of the observer after a round.
pub data Notice (Url : Type 0) : Type 0 where
  probe_result : Url → (successful : Bool) → Option ProbeError → Notice Url
  state_transition : Url → (healthy : Bool) → Notice Url

module _ {Url : Type 0} where
  unfoldable pub notify : List (Option (CheckResult Url)) → List (Notice Url)
  notify [] = []
  notify (none ∷ results) = notify results
  notify (some c ∷ results) =
      let rest = notify results in
      let changes = if c.changed then state_transition c.target c.healthy ∷ rest else rest in
      if c.tracked then probe_result c.target c.healthy c.error ∷ changes else rest
