-- ===== src/Upstream/EndpointCoordinator/Publication.antt =====
-- What Apply of internal/upstream/endpoint_coordinator.go publishes.
use dev_gate.Common.{ℕ, ◌≡◌, refl, ◌∙◌, Bool, true, false, String, List, Option, none, some, select}
use dev_gate.Upstream.EndpointMembership.{EndpointMembership}
use dev_gate.Upstream.EndpointMembership
use dev_gate.Upstream.HealthTracker.{HealthTracker}
use dev_gate.Upstream.HealthTracker.Laws.{replace_lem}
use dev_gate.Upstream.PassiveHealth.{PassiveHealthTracker}
use dev_gate.Upstream.Picker.{ReplaceablePicker}
use dev_gate.Upstream.HealthAwarePicker.{
  HealthAwarePicker, refresh, acquire, IsAnswer, refresh-IsAnswer,
}
use dev_gate.Upstream.EndpointCoordinator.{
  EndpointCoordinator, ApplyError, healthy_endpoints, replace_active, replace_passive,
  refresh_picker, apply,
}
use dev_gate.Upstream.EndpointCoordinator.Reading.{
  ActiveInv, active_after, after-Inv, both_allow, passive_after, reading_lem,
}

module _ {Url P : Type 0} (url_string : Url → String) where
  replace_active_lem :
      (m : EndpointMembership Url) (p : HealthAwarePicker P) (a : Option (HealthTracker Url))
      (b : Option (PassiveHealthTracker Url)) (us : List Url)
      → ActiveInv url_string a
      → ◌≡◌ {A = EndpointCoordinator Url P × Bool}
          (replace_active url_string
            (record { membership = m; picker = p; active_tracker = a; passive_tracker = b })
            us)
          (
            record {
              membership = m;
              picker = p;
              active_tracker = active_after url_string a us;
              passive_tracker = b;
            },
            false,
          )
  unfolding replace_active
  replace_active_lem m p none b us v = refl
  replace_active_lem m p (some t) b us v =
      rw ((replace_lem url_string t us v.success_positive v.failure_positive).0, replace_active)
        refl

  replace_passive_lem :
      (m : EndpointMembership Url) (p : HealthAwarePicker P) (a : Option (HealthTracker Url))
      (b : Option (PassiveHealthTracker Url)) (us : List Url)
      → replace_passive url_string
          (record { membership = m; picker = p; active_tracker = a; passive_tracker = b })
          us
        ≡ record {
          membership = m;
          picker = p;
          active_tracker = a;
          passive_tracker = passive_after url_string b us;
        }
  unfolding replace_passive
  replace_passive_lem m p a none us = refl
  replace_passive_lem m p a (some t) us = refl

module _ {Url R P : Type 0} (url_string : Url → String) (pickers : ReplaceablePicker Url R P) where
  pub refresh_picker_lem :
      (c c' : EndpointCoordinator Url P) (us : List Url) (now : ℕ)
      → ◌≡◌ {A = Option (EndpointCoordinator Url P × List Url)}
          (healthy_endpoints url_string c now)
          (some (c', us))
      → (refresh pickers c'.picker us).1 ≡ true
      → ◌≡◌ {A = Option (EndpointCoordinator Url P × Option ApplyError)}
          (refresh_picker url_string pickers c now)
          (some (record c' { picker = (refresh pickers c'.picker us).0 }, none))
  unfolding refresh_picker
  refresh_picker_lem c c' us now e fine = rw (e, refresh_picker) rw fine refl

  apply-refresh_picker :
      (c c' c'' : EndpointCoordinator Url P) (us : List Url) (now : ℕ)
      → ◌≡◌ {A = EndpointCoordinator Url P × Bool} (replace_active url_string c us) (c', false)
      → replace_passive url_string c' us ≡ c''
      → apply url_string pickers c us now
        ≡ refresh_picker url_string pickers
            (record c'' { membership = EndpointMembership.replace c''.membership us })
            now
  unfolding apply
  apply-refresh_picker c c' c'' us now e f = rw (e, apply) rw f refl

  -- With an active tracker, where there is one, that keeps its invariant, Apply neither panics nor
  -- fails. The membership is then the snapshot, the active
  -- tracker is as after its Replace, and the next request is refused exactly when no
  -- endpoint of the snapshot is allowed by the trackers as they stand after their Replace, and
  -- otherwise is granted an endpoint of the snapshot that they allow.
  pub apply_lem :
      (c : EndpointCoordinator Url P) (us : List Url) (now : ℕ)
      → ActiveInv url_string c.active_tracker
      → (c' : EndpointCoordinator Url P) × (apply url_string pickers c us now ≡ some (c', none))
        × (EndpointMembership.healthy_endpoints c'.membership ≡ us)
        × (c'.active_tracker ≡ active_after url_string c.active_tracker us)
        × IsAnswer pickers
            (select
              (both_allow url_string
                (active_after url_string c.active_tracker us)
                (passive_after url_string c.passive_tracker us)
                now)
              us)
            (acquire pickers c'.picker).1
  unfolding EndpointMembership.replace EndpointMembership.healthy_endpoints
  apply_lem c us now v =
      let a = active_after url_string c.active_tracker us in
      let b = passive_after url_string c.passive_tracker us in
      let m = EndpointMembership.replace c.membership us in
      let (b', read) =
        reading_lem url_string m c.picker a b now (after-Inv url_string c.active_tracker us v) in
      let (fine, answer) =
        refresh-IsAnswer pickers c.picker (select (both_allow url_string a b now) us) in
      (
        record {
          membership = m;
          picker = (refresh pickers c.picker (select (both_allow url_string a b now) us)).0;
          active_tracker = a;
          passive_tracker = b';
        },
        apply-refresh_picker c (record c { active_tracker = a })
              (record c { active_tracker = a; passive_tracker = b }) us now
              (replace_active_lem url_string c.membership c.picker c.active_tracker
                c.passive_tracker us v)
              (replace_passive_lem url_string c.membership c.picker a c.passive_tracker us)
            ∙ refresh_picker_lem
                (record {
                  membership = m;
                  picker = c.picker;
                  active_tracker = a;
                  passive_tracker = b;
                })
                (record {
                  membership = m;
                  picker = c.picker;
                  active_tracker = a;
                  passive_tracker = b';
                })
                (select (both_allow url_string a b now) us) now read fine,
        refl,
        refl,
        answer,
      )
