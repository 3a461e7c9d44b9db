-- ===== src/Command/HealthObserver/Published.antt =====
-- What the health checks of a round publish through cmd/devgate/health_check_observer.go.
use text.Mathlib.TextPositions.{eq_refl}
use dev_gate.Common.{ℕ, ◌≡◌, refl, Bool, List, [], ◌∷◌, map, some, String, arith, ap, ◌∙◌}
use dev_gate.Upstream.Picker.{ReplaceablePicker}
use dev_gate.Upstream.HealthAwarePicker.{acquire, IsAnswer}
use dev_gate.Upstream.EndpointCoordinator.Reading.{ActiveInv}
use dev_gate.Upstream.EndpointCoordinator.Refreshed.{allowed, refreshed_lem}
use dev_gate.Upstream.HealthChecker.{Notice, probe_result, state_transition}
use dev_gate.Metrics.Prometheus.{Vectors, labels_eq}
use dev_gate.Metrics.Health.{flag, notice, notices}
use dev_gate.Metrics.Health.Shown.{flag_small}
use dev_gate.Command.HealthObserver.{HealthObserver, told, told_all}

module _ {Url R P V : Type 0} (url_string redacted : Url → String)
    (pickers : ReplaceablePicker Url R P) (vs : Vectors V) (route : String) where
  told_lem :
      (o : HealthObserver Url P V) (n : Notice Url) (now : ℕ)
      → ActiveInv url_string o.shared.active_tracker
      → (o' : HealthObserver Url P V) × (told url_string redacted pickers vs route o n now
          ≡ some o')
        × (o'.metrics ≡ notice vs redacted o.metrics route n)
        × (o'.shared.active_tracker ≡ o.shared.active_tracker)
  unfolding told
  told_lem o (probe_result u successful e) now v = (_, refl, refl, refl)
  told_lem o (state_transition u healthy) now v =
      let (c, e, same, answer) = refreshed_lem url_string pickers o.shared now v in
      (
        record {
          shared = c;
          metrics = notice vs redacted o.metrics route (state_transition u healthy);
        },
        rw (e, told) refl,
        refl,
        same,
      )

  told_all_lem :
      (o : HealthObserver Url P V) (ns : List (Notice Url × ℕ))
      → ActiveInv url_string o.shared.active_tracker
      → (o' : HealthObserver Url P V) × (told_all url_string redacted pickers vs route o ns
          ≡ some o')
        × (o'.metrics ≡ notices vs redacted o.metrics route (map (λ n. n.0) ns))
        × (o'.shared.active_tracker ≡ o.shared.active_tracker)
  unfolding told_all notices
  told_all_lem o [] v = (o, refl, refl, refl)
  told_all_lem o ((n, now) ∷ ns) v =
      let (p, e, m, same) = told_lem o n now v in
      let (q, f, k, same') = told_all_lem p ns (rw same v) in
      (
        q,
        rw (e, told_all) f,
        k ∙ ap (λ m'. notices vs redacted m' route (map (λ n. n.0) ns)) m,
        same' ∙ same,
      )

  -- Whatever the observer of a route has been told, each time at some reading of the clock, nothing
  -- panics where the active tracker, if there is one, keeps its invariant, and the metrics are those
  -- of the notices alone. If it is then told that an endpoint has changed its health, its gauge
  -- shows the new one; and the next request is refused exactly when the trackers allow no member at
  -- the reading of the clock, and otherwise is granted a member that they allow.
  pub transition_published :
      (o : HealthObserver Url P V) (ns : List (Notice Url × ℕ)) (u : Url) (healthy : Bool) (now : ℕ)
      → ActiveInv url_string o.shared.active_tracker
      → (p : HealthObserver Url P V) × (q : HealthObserver Url P V) × (told_all url_string redacted
            pickers vs route o ns
          ≡ some p)
        × (p.metrics ≡ notices vs redacted o.metrics route (map (λ n. n.0) ns))
        × (told url_string redacted pickers vs route p (state_transition u healthy) now ≡ some q)
        × (vs.value q.metrics.endpoint_healthy (route ∷ redacted u ∷ []) ≡ flag healthy)
        × IsAnswer pickers
            (allowed url_string pickers p.shared now)
            (acquire pickers q.shared.picker).1
  unfolding told notice labels_eq
  transition_published o ns u healthy now v =
      let (p, e, m, same) = told_all_lem o ns v in
      let (c, f, _, answer) = refreshed_lem url_string pickers p.shared now (rw same v) in
      (
        p,
        record {
          shared = c;
          metrics = notice vs redacted p.metrics route (state_transition u healthy);
        },
        e,
        m,
        rw (f, told) refl,
        ground (
          arith,
          eq_refl route,
          eq_refl (redacted u),
          vs.value-set p.metrics.endpoint_healthy (route ∷ redacted u ∷ [])
              (route ∷ redacted u ∷ []) (flag healthy) (flag_small healthy),
        ),
        answer,
      )
