-- ===== src/Upstream/EndpointCoordinator/Refreshed.antt =====
-- What a refresh of the picker publishes from its source in
-- internal/upstream/endpoint_coordinator.go.
use dev_gate.Common.{ℕ, ◌≡◌, refl, String, List, Option, none, some, select}
use dev_gate.Upstream.EndpointMembership
use dev_gate.Upstream.Picker.{ReplaceablePicker}
use dev_gate.Upstream.HealthAwarePicker.{acquire, refresh, IsAnswer, refresh-IsAnswer}
use dev_gate.Upstream.EndpointCoordinator.{EndpointCoordinator, ApplyError, refresh_picker}
use dev_gate.Upstream.EndpointCoordinator.Reading.{ActiveInv, both_allow, reading_lem}
use dev_gate.Upstream.EndpointCoordinator.Publication.{refresh_picker_lem}

module _ {Url R P : Type 0} (url_string : Url → String) (pickers : ReplaceablePicker Url R P) where
  -- What the trackers allow of the members.
  abbrev pub allowed : EndpointCoordinator Url P → ℕ → List Url
  allowed c now =
      select (both_allow url_string c.active_tracker c.passive_tracker now)
        (EndpointMembership.healthy_endpoints c.membership)

  pub refreshed_lem :
      (c : EndpointCoordinator Url P) (now : ℕ)
      → ActiveInv url_string c.active_tracker
      → (c' : EndpointCoordinator Url P) × ◌≡◌
          {A = Option (EndpointCoordinator Url P × Option ApplyError)}
          (refresh_picker url_string pickers c now)
          (some (c', none))
        × (c'.active_tracker ≡ c.active_tracker)
        × IsAnswer pickers (allowed c now) (acquire pickers c'.picker).1
  refreshed_lem c now v =
      let (b, read) =
        reading_lem url_string c.membership c.picker c.active_tracker c.passive_tracker now v in
      let (fine, answer) = refresh-IsAnswer pickers c.picker (allowed c now) in
      (
        record c { passive_tracker = b; picker = (refresh pickers c.picker (allowed c now)).0 },
        refresh_picker_lem url_string pickers c (record c { passive_tracker = b }) (allowed c now)
            now read fine,
        refl,
        answer,
      )
