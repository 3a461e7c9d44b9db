-- ===== src/Command/HealthObserver.antt =====
-- cmd/devgate/health_check_observer.go. The picker and its source are those of the record that the
-- coordinator is, and logging is left out.
pub mod Published
use dev_gate.Common.{ℕ, List, [], ◌∷◌, Option, none, some, String}
use dev_gate.Upstream.Picker.{ReplaceablePicker}
use dev_gate.Upstream.EndpointCoordinator.{EndpointCoordinator, refresh_picker}
use dev_gate.Upstream.HealthChecker.{Notice, probe_result, state_transition}
use dev_gate.Metrics.Prometheus.{Vectors}
use dev_gate.Metrics.Health.{ActiveHealthCheck, notice}

pub record HealthObserver (Url P V : Type 0) : Type 0 where
  pub shared : EndpointCoordinator Url P
  pub metrics : ActiveHealthCheck V

module _ {Url R P V : Type 0} (url_string redacted : Url → String)
    (pickers : ReplaceablePicker Url R P) (vs : Vectors V) (route : String) where
  -- RecordProbeResult, and RecordStateTransition, whose refresh reads the clock of the passive
  -- tracker; `none` is a panic, and an error of the refresh is only logged.
  unfoldable pub told : HealthObserver Url P V → Notice Url → ℕ → Option (HealthObserver Url P V)
  unfolding notice
  told o (probe_result u successful e) now =
      some (record o { metrics = notice vs redacted o.metrics route (probe_result u successful e) })
  told o (state_transition u healthy) now =
      let metrics = notice vs redacted o.metrics route (state_transition u healthy) in
      elim (refresh_picker url_string pickers o.shared now) [
        | none ↦ none
        | some (shared, failed) ↦ some (record { shared = shared; metrics = metrics })
      ]

  -- The notices of a round, each with a reading of the clock.
  unfoldable pub told_all :
      HealthObserver Url P V → List (Notice Url × ℕ) → Option (HealthObserver Url P V)
  unfolding told
  told_all o [] = some o
  told_all o ((n, now) ∷ ns) = elim (told o n now) [ none ↦ none | some o' ↦ told_all o' ns ]
