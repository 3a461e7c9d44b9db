-- ===== src/Command/Accepted/Shared.antt =====
-- The picker over healthy endpoints and the coordinator that cmd/devgate creates for a route.
use dev_gate.Common.{
  ℕ, ◌≡◌, refl, String, List, [], Option, none, some, Option-cases, inl, inr, ok, select, false,
}
use dev_gate.Router.Std.{Url}
use dev_gate.Router.Route.{Upstream}
use dev_gate.Upstream.HealthTracker.{HealthTracker}
use dev_gate.Upstream.PassiveHealth.{PassiveHealthTracker}
use dev_gate.Upstream.EndpointMembership.{EndpointMembership}
use dev_gate.Upstream.EndpointMembership
use dev_gate.Upstream.Picker.{ReplaceablePicker}
use dev_gate.Upstream.HealthAwarePicker.{acquire, IsAnswer}
use dev_gate.Upstream.EndpointCoordinator.{EndpointCoordinator}
use dev_gate.Upstream.EndpointCoordinator.Reading.{ActiveInv, both_allow}
use dev_gate.Upstream.EndpointCoordinator.Refreshed.{refreshed_lem}
use dev_gate.Upstream.EndpointCoordinator.Publication.{apply_lem}
use dev_gate.Command.Assembly.{new_route_health_aware_picker, new_route_coordinator}

module _ {R P : Type 0} (url_string : Url → String) (pickers : ReplaceablePicker Url R P) where
  pub aware_lem :
      (base : P) (us : List Url) (active : Option (HealthTracker Url))
      (passive : Option (PassiveHealthTracker Url)) (now : ℕ)
      → ActiveInv url_string active
      → (c : EndpointCoordinator Url P) × (new_route_health_aware_picker url_string pickers base
            (EndpointMembership.new us)
            active
            passive
            now
          ≡ ok c)
        × ActiveInv url_string c.active_tracker
        × IsAnswer pickers
            (select (both_allow url_string active passive now) us)
            (acquire pickers c.picker).1
  unfolding new_route_health_aware_picker EndpointMembership.new
      EndpointMembership.healthy_endpoints
  aware_lem base us active passive now v =
      let c₀ : EndpointCoordinator Url P = record {
        membership = EndpointMembership.new us;
        picker = record { picker = base; available = false };
        active_tracker = active;
        passive_tracker = passive;
      } in
      let (c, e, same, answer) = refreshed_lem url_string pickers c₀ now v in
      (c, rw (e, new_route_health_aware_picker) refl, rw same v, answer)

  -- The endpoints that a route starts with: none where they are discovered.
  abbrev pub first_members : Upstream → List Url → List Url
  first_members u us = elim u.dns_discovery [ none ↦ us | some d ↦ [] ]

  pub coordinator_lem :
      (u : Upstream) (c : EndpointCoordinator Url P) (us : List Url) (later : ℕ)
      → ActiveInv url_string c.active_tracker
      → IsAnswer pickers us (acquire pickers c.picker).1
      → (c' : EndpointCoordinator Url P) × (new_route_coordinator url_string pickers u c later
          ≡ ok c')
        × IsAnswer pickers (first_members u us) (acquire pickers c'.picker).1
  unfolding new_route_coordinator
  coordinator_lem u c us later v answer = elim (Option-cases u.dns_discovery) [
    | inl n ↦ (c, rw (n, new_route_coordinator) refl, rw n answer)
    | inr (d, n) ↦
        let (c', e, members, active, none_left) = apply_lem url_string pickers c [] later v in
        (c', rw (n, e, new_route_coordinator) refl, rw n none_left)
  ]
