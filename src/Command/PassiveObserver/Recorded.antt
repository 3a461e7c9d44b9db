-- ===== src/Command/PassiveObserver/Recorded.antt =====
-- What RecordEjection and the recoveries of Run in cmd/devgate/passive_health_observer.go publish.
use mathlib.Core.List.{Memᴰ}
use text.Mathlib.TextPositions.{eq_refl}
use dev_gate.Common.{ℕ, suc, ◌<◌, ◌≡◌, refl, true, List, [], ◌∷◌, some, String, arith}
use dev_gate.Upstream.Picker.{ReplaceablePicker}
use dev_gate.Upstream.HealthAwarePicker.{acquire, IsAnswer}
use dev_gate.Upstream.EndpointCoordinator.{EndpointCoordinator}
use dev_gate.Upstream.EndpointCoordinator.Reading.{ActiveInv}
use dev_gate.Upstream.EndpointCoordinator.Refreshed.{allowed, refreshed_lem}
use dev_gate.Metrics.Prometheus.{Vectors, labels_eq, exact}
use dev_gate.Metrics.Health as Health
use dev_gate.Command.PassiveObserver.{
  PassiveObserver, record_ejection, record_recoveries, read_healthy, recover,
}

module _ {Url P V : Type 0} (redacted : Url → String) (vs : Vectors V) (route : String) where
  abbrev pub ejected_gauge : PassiveObserver Url P V → Url → ℕ
  ejected_gauge o u = vs.value o.metrics.endpoint_ejected (route ∷ redacted u ∷ [])

  abbrev pub ejections : PassiveObserver Url P V → Url → ℕ
  ejections o u = vs.value o.metrics.ejections_total (route ∷ redacted u ∷ [])

module _ {Url R P V : Type 0} (url_string redacted : Url → String)
    (pickers : ReplaceablePicker Url R P) (vs : Vectors V) (route : String) where
  -- RecordEjection does not panic where the active tracker, if there is one, keeps its invariant. It
  -- counts the ejection while the counter is exact, marks the endpoint as ejected and leaves a value
  -- in the channel; and the next request is refused exactly when the trackers allow no member at the
  -- reading of the clock, and otherwise is granted a member that they allow.
  pub record_ejection_lem :
      (o : PassiveObserver Url P V) (u : Url) (now : ℕ)
      → ActiveInv url_string o.shared.active_tracker
      → ejections redacted vs route o u < exact
      → (o' : PassiveObserver Url P V) × (record_ejection url_string redacted pickers vs route o u
            now
          ≡ some o')
        × (ejections redacted vs route o' u ≡ suc (ejections redacted vs route o u))
        × (ejected_gauge redacted vs route o' u ≡ 1)
        × (o'.wake ≡ true)
        × IsAnswer pickers
            (allowed url_string pickers o.shared now)
            (acquire pickers o'.shared.picker).1
  unfolding record_ejection labels_eq
  record_ejection_lem o u now v small =
      let (c, e, _, answer) = refreshed_lem url_string pickers o.shared now v in
      (
        record {
          shared = c;
          metrics = Health.record_ejection vs redacted o.metrics route u;
          wake = true;
        },
        rw (e, record_ejection) refl,
        ground (
          arith,
          eq_refl route,
          eq_refl (redacted u),
          small,
          vs.value-inc o.metrics.ejections_total (route ∷ redacted u ∷ [])
              (route ∷ redacted u ∷ []),
        ),
        ground (
          arith,
          eq_refl route,
          eq_refl (redacted u),
          vs.value-set o.metrics.endpoint_ejected (route ∷ redacted u ∷ [])
              (route ∷ redacted u ∷ []) 1,
        ),
        refl,
        answer,
      )

  recoveries-kept :
      (m : Health.PassiveHealth V) (us : List Url) (u : Url)
      → vs.value m.endpoint_ejected (route ∷ redacted u ∷ []) ≡ 0
      → vs.value
          (record_recoveries redacted vs route m us).endpoint_ejected
          (route ∷ redacted u ∷ [])
        ≡ 0
  unfolding record_recoveries labels_eq
  recoveries-kept m [] u e = e
  recoveries-kept m (w ∷ us) u e =
      recoveries-kept (Health.record_recovery vs redacted m route w) us u (
        ground (
          arith,
          e,
          vs.value-set m.endpoint_ejected (route ∷ redacted w ∷ []) (route ∷ redacted u ∷ []) 0,
        ))

  recoveries_lem :
      (m : Health.PassiveHealth V) (us : List Url) (u : Url)
      → Memᴰ u us
      → vs.value
          (record_recoveries redacted vs route m us).endpoint_ejected
          (route ∷ redacted u ∷ [])
        ≡ 0
  unfolding record_recoveries labels_eq
  recoveries_lem m [] u i = elim i [ ]
  recoveries_lem m (w ∷ us) u (Memᴰ.head e) =
      recoveries-kept (Health.record_recovery vs redacted m route w) us u (
        ground (
          arith,
          e,
          eq_refl route,
          eq_refl (redacted u),
          vs.value-set m.endpoint_ejected (route ∷ redacted w ∷ []) (route ∷ redacted u ∷ []) 0,
        ))
  recoveries_lem m (w ∷ us) u (Memᴰ.tail i) =
      recoveries_lem (Health.record_recovery vs redacted m route w) us u i

  read_healthy-active :
      (c : EndpointCoordinator Url P) (now : ℕ)
      → (read_healthy url_string c now).0.active_tracker ≡ c.active_tracker
  unfolding read_healthy
  read_healthy-active c now = ground arith

  -- When the timer of Run fires, nothing panics where the active tracker, if there is one, keeps its
  -- invariant. Every endpoint that the passive tracker then lists is marked as available, and the
  -- next request is refused exactly when the trackers, as they stand after this listing, allow no
  -- member at the later reading of the clock, and otherwise is granted a member that they allow.
  pub recover_lem :
      (o : PassiveObserver Url P V) (now later : ℕ)
      → ActiveInv url_string o.shared.active_tracker
      → (o' : PassiveObserver Url P V) × (recover url_string redacted pickers vs route o now later
          ≡ some o')
        × ((u : Url)
            → Memᴰ u (read_healthy url_string o.shared now).1
            → ejected_gauge redacted vs route o' u ≡ 0)
        × IsAnswer pickers
            (allowed url_string pickers (read_healthy url_string o.shared now).0 later)
            (acquire pickers o'.shared.picker).1
  unfolding recover
  recover_lem o now later v =
      let (shared, us) = read_healthy url_string o.shared now in
      let (c, e, _, answer) =
        refreshed_lem url_string pickers shared later (rw (read_healthy-active o.shared now) v) in
      (
        record o { shared = c; metrics = record_recoveries redacted vs route o.metrics us },
        rw (e, recover) refl,
        λ u i. recoveries_lem o.metrics us u i,
        answer,
      )
