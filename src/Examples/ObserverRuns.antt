-- ===== src/Examples/ObserverRuns.antt =====
-- The observers of the health checks of cmd/devgate on endpoints that are their own texts.
use mathlib.Core.List.{Memᴰ}
use dev_gate.Common.{
  ℕ, ◌≤◌, ◌≡◌, refl, ◌⊎◌, true, false, String, Option, some, arith, lookup, insert, List, [], ◌∷◌,
  none, map,
}
use dev_gate.Upstream.PassiveHealth.{
  PassiveHealthTracker, PassivePermit, failure, record_outcome, next_recovery_delay, earliest_loop,
  count_outcome,
}
use dev_gate.Upstream.RoundRobin.{RoundRobin}
use dev_gate.Upstream.RoundRobin
use dev_gate.Upstream.HealthAwarePicker.{acquire, IsAnswer}
use dev_gate.Metrics.Prometheus.{Labels}
use dev_gate.Upstream.HealthChecker.{Notice, probe_result, state_transition}
use dev_gate.Metrics.Health.{notices}
use dev_gate.Command.HealthObserver.{HealthObserver, told, told_all}
use dev_gate.Command.HealthObserver.Published.{transition_published}
use dev_gate.Command.PassiveObserver.{PassiveObserver, record_ejection, read_healthy, recover}
use dev_gate.Command.PassiveObserver.Ends.{end_of}
use dev_gate.Command.PassiveObserver.WakeUps.{
  Observed, Step, Reach, start, later, waiting, no_lost_wake,
}
use dev_gate.Upstream.EndpointCoordinator.Refreshed.{allowed}
use dev_gate.Command.PassiveObserver.Recorded.{
  ejected_gauge, ejections, record_ejection_lem, recover_lem,
}
use dev_gate.Examples.PoolRuns.{own_text}
use dev_gate.Examples.PassiveRuns.{watched}
use dev_gate.Examples.CoordinatorRuns.{coordinator, tracker-Inv}
use dev_gate.Examples.MetricsRuns.{vectors, opts}

abbrev observer : PassiveObserver String (RoundRobin String) (Labels → ℕ)
observer = record {
  shared = coordinator;
  metrics = record { ejections_total = vectors.fresh opts; endpoint_ejected = vectors.fresh opts };
  wake = false;
}

record_ejection_lem_example :
    (o : PassiveObserver String (RoundRobin String) (Labels → ℕ)) × (record_ejection own_text
        own_text RoundRobin.picker vectors "r" observer "a" 5
      ≡ some o)
    × (ejections own_text vectors "r" o "a" ≡ 1)
    × (ejected_gauge own_text vectors "r" o "a" ≡ 1)
    × (o.wake ≡ true)
    × IsAnswer RoundRobin.picker
        (allowed own_text RoundRobin.picker coordinator 5)
        (acquire RoundRobin.picker o.shared.picker).1
record_ejection_lem_example =
    record_ejection_lem own_text own_text RoundRobin.picker vectors "r" observer "a" 5 tracker-Inv
      (omega arith)

recover_lem_example :
    (o : PassiveObserver String (RoundRobin String) (Labels → ℕ)) × (recover own_text own_text
        RoundRobin.picker vectors "r" observer 20 21
      ≡ some o)
    × ((u : String)
        → Memᴰ u (read_healthy own_text coordinator 20).1
        → ejected_gauge own_text vectors "r" o u ≡ 0)
    × IsAnswer RoundRobin.picker
        (allowed own_text RoundRobin.picker (read_healthy own_text coordinator 20).0 21)
        (acquire RoundRobin.picker o.shared.picker).1
recover_lem_example =
    recover_lem own_text own_text RoundRobin.picker vectors "r" observer 20 21 tracker-Inv

-- A probe of each endpoint that has failed, and the health of the second, which has changed.
abbrev round_notices : List (Notice String × ℕ)
round_notices =
    (probe_result "a" false none, 3)
    ∷ (probe_result "b" false none, 3)
    ∷ (state_transition "b" false, 4)
    ∷ []

abbrev health_observer : HealthObserver String (RoundRobin String) (Labels → ℕ)
health_observer = record {
  shared = coordinator;
  metrics = record { probes_total = vectors.fresh opts; endpoint_healthy = vectors.fresh opts };
}

transition_published_example :
    (p : HealthObserver String (RoundRobin String) (Labels → ℕ)) × (q : HealthObserver String
      (RoundRobin String)
      (Labels → ℕ))
    × (told_all own_text own_text RoundRobin.picker vectors "r" health_observer round_notices
        ≡ some p)
    × (p.metrics
        ≡ notices vectors own_text health_observer.metrics "r" (map (λ n. n.0) round_notices))
    × (told own_text own_text RoundRobin.picker vectors "r" p (state_transition "a" true) 5
        ≡ some q)
    × (vectors.value q.metrics.endpoint_healthy ("r" ∷ "a" ∷ []) ≡ 1)
    × IsAnswer RoundRobin.picker
        (allowed own_text RoundRobin.picker p.shared 5)
        (acquire RoundRobin.picker q.shared.picker).1
transition_published_example =
    transition_published own_text own_text RoundRobin.picker vectors "r" health_observer
      round_notices "a" true 5 tracker-Inv

-- A request fails at 5 and ejects its endpoint until 15; its observer is told, and Run asks at 6.
abbrev permit : PassivePermit
permit = record { key = "a"; state = 0; generation = 0 }

abbrev failed : PassiveHealthTracker String
failed = (record_outcome watched permit failure 5).0

abbrev asked : Observed String
asked = record { tracker = failed; place = waiting 6 (some 15); wake = false; telling = 0 }

asked_reached : Reach own_text watched asked
unfolding record_outcome count_outcome lookup insert next_recovery_delay earliest_loop
asked_reached =
    later
      (later
        (later (later (later start (Step.count _ permit failure 5)) (Step.tell _ 0 refl))
          (Step.ask _ 5 refl))
        (Step.woken _ 5 (some 15) refl refl))
      (Step.ask _ 6 refl)

failed_ejected : end_of "a" failed.state_by_target ≡ some 15
unfolding end_of record_outcome count_outcome lookup insert
failed_ejected = refl

no_lost_wake_example : (e : ℕ) × ◌≡◌ {A = Option ℕ} (some 15) (some e) × ((e ≤ 15) ⊎ (e ≡ 6))
no_lost_wake_example =
    no_lost_wake own_text watched {s = asked} 6 (some 15) "a" 15 asked_reached refl refl refl
      failed_ejected
