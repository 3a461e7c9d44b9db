-- ===== src/Upstream/EndpointCoordinator.antt =====
-- internal/upstream/endpoint_coordinator.go over any picker, with the composite source that
-- newRouteHealthAwarePicker of cmd/devgate/handlers.go gives the picker. The coordinator and the
-- objects that it shares with the source are one record.
use dev_gate.Common.{
  ℕ, Bool, true, false, String, List, [], ◌∷◌, ◌++◌, Option, none, some, if◌then◌else◌,
}
use dev_gate.Upstream.EndpointMembership.{EndpointMembership}
use dev_gate.Upstream.EndpointMembership
use dev_gate.Upstream.CompositeHealthSource.{HealthyEndpointSource}
use dev_gate.Upstream.CompositeHealthSource
use dev_gate.Upstream.HealthTracker.{HealthTracker}
use dev_gate.Upstream.HealthTracker
use dev_gate.Upstream.PassiveHealth.{PassiveHealthTracker}
use dev_gate.Upstream.PassiveHealth
use dev_gate.Upstream.Picker.{ReplaceablePicker}
use dev_gate.Upstream.HealthAwarePicker.{HealthAwarePicker, refresh}
pub mod Publication
pub mod Reading
pub mod Refreshed

pub record EndpointCoordinator (Url P : Type 0) : Type 0 where
  pub membership : EndpointMembership Url
  pub picker : HealthAwarePicker P
  pub active_tracker : Option (HealthTracker Url)
  pub passive_tracker : Option (PassiveHealthTracker Url)

pub data ApplyError : Type 0 where
  replace_active_failed refresh_failed : ApplyError

module _ {Url : Type 0} (url_string : Url → String) where
  unfoldable pub active_listing : Option (HealthTracker Url) → Option (List Url)
  active_listing none = some []
  active_listing (some t) = HealthTracker.healthy_endpoints url_string t

module _ {Url P : Type 0} (url_string : Url → String) where
  -- A source for each object that there is. What the active tracker lists, or its panic, is read
  -- first; none of the other sources changes it.
  unfoldable pub membership_source : HealthyEndpointSource Url (EndpointCoordinator Url P)
  membership_source c = (c, EndpointMembership.healthy_endpoints c.membership)

  unfoldable pub active_source : List Url → HealthyEndpointSource Url (EndpointCoordinator Url P)
  active_source listing c = (c, listing)

  unfoldable pub passive_source :
      PassiveHealthTracker Url → ℕ → HealthyEndpointSource Url (EndpointCoordinator Url P)
  passive_source t now c =
      let (t', listing) = PassiveHealth.healthy_endpoints url_string t now in
      (record c { passive_tracker = some t' }, listing)

  -- The composite source's arguments.
  unfoldable pub sources :
      EndpointCoordinator Url P
      → List Url
      → ℕ
      → List (HealthyEndpointSource Url (EndpointCoordinator Url P))
  unfolding membership_source active_source passive_source
  sources c listing now =
      membership_source
      ∷ (elim c.active_tracker [ none ↦ [] | some t ↦ active_source listing ∷ [] ]
          ++ elim c.passive_tracker [ none ↦ [] | some t ↦ passive_source t now ∷ [] ])

  -- HealthyEndpoints of the composite source; `none` is a panic.
  unfoldable pub healthy_endpoints :
      EndpointCoordinator Url P → ℕ → Option (EndpointCoordinator Url P × List Url)
  unfolding active_listing sources
  healthy_endpoints c now = elim (active_listing url_string c.active_tracker) [
    | none ↦ none
    | some listing ↦ CompositeHealthSource.healthy_endpoints url_string (sources c listing now) c
  ]

  unfoldable pub replace_active :
      EndpointCoordinator Url P → List Url → EndpointCoordinator Url P × Bool
  replace_active c endpoints = elim c.active_tracker [
    | none ↦ (c, false)
    | some t ↦ elim (HealthTracker.replace url_string t endpoints).1 [
      | none ↦ (
        record c { active_tracker = some (HealthTracker.replace url_string t endpoints).0 },
        false,
      )
      | some e ↦ (
        record c { active_tracker = some (HealthTracker.replace url_string t endpoints).0 },
        true,
      )
    ]
  ]

  unfoldable pub replace_passive : EndpointCoordinator Url P → List Url → EndpointCoordinator Url P
  replace_passive c endpoints = elim c.passive_tracker [
    | none ↦ c
    | some t ↦ record c { passive_tracker = some (PassiveHealth.replace url_string t endpoints) }
  ]

module _ {Url R P : Type 0} (url_string : Url → String) (pickers : ReplaceablePicker Url R P) where
  -- Refresh of the picker, and its result.
  unfoldable pub refresh_picker :
      EndpointCoordinator Url P → ℕ → Option (EndpointCoordinator Url P × Option ApplyError)
  unfolding healthy_endpoints
  refresh_picker c now = elim (healthy_endpoints url_string c now) [
    | none ↦ none
    | some (c', us) ↦
        let (p, fine) = refresh pickers c'.picker us in
        some (record c' { picker = p }, if fine then none else some refresh_failed)
  ]

  -- Apply. The reading of the passive tracker's clock is `now`.
  unfoldable pub apply :
      EndpointCoordinator Url P
      → List Url
      → ℕ
      → Option (EndpointCoordinator Url P × Option ApplyError)
  unfolding replace_active replace_passive refresh_picker
  apply c endpoints now =
      let (c', failed) = replace_active url_string c endpoints in
      if failed
      then some (c', some replace_active_failed)
      else (let c'' = replace_passive url_string c' endpoints in
          refresh_picker
            (record c'' { membership = EndpointMembership.replace c''.membership endpoints }) now)
