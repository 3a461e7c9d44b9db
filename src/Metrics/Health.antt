-- ===== src/Metrics/Health.antt =====
-- internal/metrics/active_health_check.go, passive_health.go and their observers.
pub mod Shown
use dev_gate.Common.{
  ℕ, suc, ◌+◌, ◌<◌, ◌≡◌, refl, Bool, true, false, List, [], ◌∷◌, String, if◌then◌else◌, arith,
}
use dev_gate.Metrics.Prometheus.{Vectors}
use dev_gate.Upstream.HealthChecker.{Notice, probe_result, state_transition}

pub record ActiveHealthCheck (V : Type 0) : Type 0 where
  pub probes_total : V
  pub endpoint_healthy : V

pub record PassiveHealth (V : Type 0) : Type 0 where
  pub ejections_total : V
  pub endpoint_ejected : V

-- The value of a gauge for a test.
abbrev pub flag : Bool → ℕ
flag b = if b then 1 else 0

module _ {V : Type 0} (vs : Vectors V) where
  unfoldable pub record_successful_probe :
      ActiveHealthCheck V → String → String → ActiveHealthCheck V
  record_successful_probe m route target = record m {
    probes_total = vs.inc m.probes_total (route ∷ target ∷ "success" ∷ []);
  }

  unfoldable pub record_failed_probe : ActiveHealthCheck V → String → String → ActiveHealthCheck V
  record_failed_probe m route target = record m {
    probes_total = vs.inc m.probes_total (route ∷ target ∷ "failure" ∷ []);
  }

  unfoldable pub set_endpoint_healthy :
      ActiveHealthCheck V → String → String → Bool → ActiveHealthCheck V
  set_endpoint_healthy m route target healthy = record m {
    endpoint_healthy = vs.set m.endpoint_healthy (route ∷ target ∷ []) (flag healthy);
  }

  unfoldable pub count_ejection : PassiveHealth V → String → String → PassiveHealth V
  count_ejection m route target = record m {
    ejections_total = vs.inc m.ejections_total (route ∷ target ∷ []);
  }

  unfoldable pub set_endpoint_ejected : PassiveHealth V → String → String → Bool → PassiveHealth V
  set_endpoint_ejected m route target ejected = record m {
    endpoint_ejected = vs.set m.endpoint_ejected (route ∷ target ∷ []) (flag ejected);
  }

-- The observers, over the text of an endpoint that Redacted gives.
module _ {V Url : Type 0} (vs : Vectors V) (redacted : Url → String) where
  unfoldable pub active_for_route : ActiveHealthCheck V → String → List Url → ActiveHealthCheck V
  unfolding set_endpoint_healthy
  active_for_route m route [] = m
  active_for_route m route (u ∷ us) =
      active_for_route (set_endpoint_healthy vs m route (redacted u) true) route us

  -- RecordProbeResult and RecordStateTransition
  unfoldable pub notice : ActiveHealthCheck V → String → Notice Url → ActiveHealthCheck V
  unfolding record_successful_probe record_failed_probe set_endpoint_healthy
  notice m route (probe_result u successful e) =
      if successful
      then record_successful_probe vs m route (redacted u)
      else record_failed_probe vs m route (redacted u)
  notice m route (state_transition u healthy) = set_endpoint_healthy vs m route (redacted u) healthy

  unfoldable pub notices : ActiveHealthCheck V → String → List (Notice Url) → ActiveHealthCheck V
  unfolding notice
  notices m route [] = m
  notices m route (n ∷ ns) = notices (notice m route n) route ns

  unfoldable pub passive_for_route : PassiveHealth V → String → List Url → PassiveHealth V
  unfolding set_endpoint_ejected
  passive_for_route m route [] = m
  passive_for_route m route (u ∷ us) =
      passive_for_route (set_endpoint_ejected vs m route (redacted u) false) route us

  unfoldable pub record_ejection : PassiveHealth V → String → Url → PassiveHealth V
  unfolding count_ejection set_endpoint_ejected
  record_ejection m route u =
      set_endpoint_ejected vs (count_ejection vs m route (redacted u)) route (redacted u) true

  unfoldable pub record_recovery : PassiveHealth V → String → Url → PassiveHealth V
  unfolding set_endpoint_ejected
  record_recovery m route u = set_endpoint_ejected vs m route (redacted u) false
