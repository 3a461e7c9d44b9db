-- ===== src/Command/PassiveObserver.antt =====
-- cmd/devgate/passive_health_observer.go. The tracker, the picker and its source are those of the
-- record that the coordinator is; the channel `wake` is whether it holds its one value, and logging
-- is left out.
pub mod Recorded
pub mod Ends
pub mod WakeUps
use dev_gate.Common.{
  ℕ, Bool, true, false, List, [], ◌∷◌, Option, none, some, String, Result, ok, ◌>>◌, reject,
}
use dev_gate.Upstream.PassiveHealth.{PassiveHealthTracker}
use dev_gate.Upstream.PassiveHealth
use dev_gate.Upstream.Picker.{ReplaceablePicker}
use dev_gate.Upstream.EndpointCoordinator.{EndpointCoordinator, refresh_picker}
use dev_gate.Metrics.Prometheus.{Vectors}
use dev_gate.Metrics.Health as Health

pub data ObserverError : Type 0 where
  tracker_missing picker_missing logger_missing metrics_missing : ObserverError

pub record PassiveObserver (Url P V : Type 0) : Type 0 where
  pub shared : EndpointCoordinator Url P
  pub metrics : Health.PassiveHealth V
  pub wake : Bool

module _ {Url P V : Type 0} where
  -- The tests are whether an argument is nil.
  unfoldable pub new_route_passive_health_observer :
      (no_tracker no_picker no_logger no_metrics : Bool)
      → EndpointCoordinator Url P
      → Health.PassiveHealth V
      → Result ObserverError (PassiveObserver Url P V)
  new_route_passive_health_observer no_tracker no_picker no_logger no_metrics shared metrics = do
    reject no_tracker tracker_missing
    reject no_picker picker_missing
    reject no_logger logger_missing
    reject no_metrics metrics_missing
    ok (record { shared = shared; metrics = metrics; wake = false })

module _ {Url V : Type 0} (redacted : Url → String) (vs : Vectors V) (route : String) where
  -- The loop of Run over the endpoints that are healthy.
  unfoldable pub record_recoveries : Health.PassiveHealth V → List Url → Health.PassiveHealth V
  unfolding Health.record_recovery
  record_recoveries m [] = m
  record_recoveries m (u ∷ us) = record_recoveries (Health.record_recovery vs redacted m route u) us

module _ {Url P : Type 0} (url_string : Url → String) where
  -- The healthy endpoints of the tracker at a reading of the clock.
  unfoldable pub read_healthy : EndpointCoordinator Url P → ℕ → EndpointCoordinator Url P × List Url
  read_healthy c now = elim c.passive_tracker [
    | none ↦ (c, [])
    | some t ↦
        let (t', us) = PassiveHealth.healthy_endpoints url_string t now in
        (record c { passive_tracker = some t' }, us)
  ]

module _ {Url R P V : Type 0} (url_string redacted : Url → String)
    (pickers : ReplaceablePicker Url R P) (vs : Vectors V) (route : String) where
  -- RecordEjection, whose refresh reads the tracker's clock; `none` is a panic. The value of a full
  -- channel stays the one that it is.
  unfoldable pub record_ejection :
      PassiveObserver Url P V → Url → ℕ → Option (PassiveObserver Url P V)
  unfolding Health.record_ejection
  record_ejection o target now =
      let metrics = Health.record_ejection vs redacted o.metrics route target in
      elim (refresh_picker url_string pickers o.shared now) [
        | none ↦ none
        | some (shared, failed) ↦ some (record { shared = shared; metrics = metrics; wake = true })
      ]

  -- The case of Run in which the timer fires, with the clock's readings for the recoveries and for
  -- the refresh.
  unfoldable pub recover : PassiveObserver Url P V → ℕ → ℕ → Option (PassiveObserver Url P V)
  unfolding record_recoveries read_healthy
  recover o now later =
      let (shared, healthy) = read_healthy url_string o.shared now in
      let metrics = record_recoveries redacted vs route o.metrics healthy in
      elim (refresh_picker url_string pickers shared later) [
        | none ↦ none
        | some (shared', failed) ↦ some (record o { shared = shared'; metrics = metrics })
      ]
