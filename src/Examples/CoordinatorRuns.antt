-- ===== src/Examples/CoordinatorRuns.antt =====
-- internal/upstream/endpoint_coordinator.go on endpoints that are their own texts.
use dev_gate.Common.{◌≡◌, String, [], ◌∷◌, none, some, pos, true, select}
use dev_gate.Upstream.EndpointMembership
use dev_gate.Upstream.HealthTracker.Laws.{Inv, new-Inv}
use dev_gate.Upstream.RoundRobin.{RoundRobin}
use dev_gate.Upstream.RoundRobin
use dev_gate.Upstream.HealthAwarePicker.{acquire, IsAnswer}
use dev_gate.Upstream.EndpointCoordinator.{EndpointCoordinator, apply}
use dev_gate.Upstream.EndpointCoordinator.Publication.{apply_lem}
use dev_gate.Upstream.EndpointCoordinator.Reading.{active_after, both_allow, passive_after}
use dev_gate.Examples.PassiveRuns.{watched}
use dev_gate.Examples.PoolRuns.{own_text, tracker, tracker_made}

abbrev pub coordinator : EndpointCoordinator String (RoundRobin String)
coordinator = record {
  membership = record { snapshot = some ("a" ∷ "b" ∷ []) };
  picker = record { picker = record { snapshot = "a" ∷ "b" ∷ []; next = 1 }; available = true };
  active_tracker = some tracker;
  passive_tracker = some watched;
}

pub tracker-Inv : Inv own_text tracker
tracker-Inv = new-Inv own_text ("a" ∷ "b" ∷ "a" ∷ []) (pos 2) (pos 3) tracker tracker_made

apply_lem_example :
    (c : EndpointCoordinator String (RoundRobin String)) × (apply own_text RoundRobin.picker
        coordinator
        ("b" ∷ "c" ∷ [])
        5
      ≡ some (c, none))
    × (EndpointMembership.healthy_endpoints c.membership ≡ "b" ∷ "c" ∷ [])
    × (c.active_tracker ≡ active_after own_text (some tracker) ("b" ∷ "c" ∷ []))
    × IsAnswer RoundRobin.picker
        (select
          (both_allow own_text
            (active_after own_text (some tracker) ("b" ∷ "c" ∷ []))
            (passive_after own_text (some watched) ("b" ∷ "c" ∷ []))
            5)
          ("b" ∷ "c" ∷ []))
        (acquire RoundRobin.picker c.picker).1
apply_lem_example = apply_lem own_text RoundRobin.picker coordinator ("b" ∷ "c" ∷ []) 5 tracker-Inv
