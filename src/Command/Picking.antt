-- ===== src/Command/Picking.antt =====
-- The interface replaceableTargetPicker of cmd/devgate/handlers.go, and the three pickers of
-- internal/upstream that implement it.
use mathlib.Core.List.{Memᴰ}
use dev_gate.Common.{ℕ, suc, ◌<◌, ◌≡◌, refl, String, List, ◌∷◌, Option, none, some}
use dev_gate.Router.Std.{Url}
use dev_gate.Upstream.Picker.{ReplaceablePicker}
use dev_gate.Upstream.RoundRobin.{RoundRobin}
use dev_gate.Upstream.RoundRobin
use dev_gate.Upstream.Random.{Random}
use dev_gate.Upstream.Random as Randomly
use dev_gate.Upstream.LeastRequests.{LeastRequests, Release}
use dev_gate.Upstream.LeastRequests
use dev_gate.Upstream.LeastRequests.Served

pub data Picker (S : Type 0) : Type 0 where
  round_robin_picker : RoundRobin Url → Picker S
  random_picker : Random Url S → Picker S
  least_requests_picker : LeastRequests Url → Picker S

-- The source of random numbers is IntN of math/rand/v2, whose numbers are below the bound.
module _ {S : Type 0} (url_string : Url → String) (intn : S → ℕ → S × ℕ)
    (below : (s : S) (n : ℕ) → (intn s (suc n)).1 < suc n) where
  -- Acquire; a release function is `none` where it does nothing, and `none` as the result is a panic.
  unfoldable pub acquire_target : Picker S → Option (Picker S × Url × Option Release)
  acquire_target (round_robin_picker p) = elim (RoundRobin.acquire p) [
    | none ↦ none
    | some (q, u, r) ↦ some (round_robin_picker q, u, none)
  ]
  acquire_target (random_picker p) = elim (Randomly.acquire intn p) [
    | none ↦ none
    | some (q, u, r) ↦ some (random_picker q, u, none)
  ]
  acquire_target (least_requests_picker p) = elim (LeastRequests.acquire p) [
    | none ↦ none
    | some (q, u, r) ↦ some (least_requests_picker q, u, some r)
  ]

  unfoldable pub replace_targets : Picker S → List Url → Option (Picker S)
  replace_targets (round_robin_picker p) us = elim (RoundRobin.replace p us) [
    | none ↦ none
    | some q ↦ some (round_robin_picker q)
  ]
  replace_targets (random_picker p) us = elim (Randomly.replace p us) [
    | none ↦ none
    | some q ↦ some (random_picker q)
  ]
  replace_targets (least_requests_picker p) us = elim (LeastRequests.replace url_string p us) [
    | none ↦ none
    | some q ↦ some (least_requests_picker q)
  ]

  abbrev Serves : Picker S → List Url → Type 0
  Serves (round_robin_picker p) us = RoundRobin.picker.Serves p us
  Serves (random_picker p) us = (Randomly.picker intn below).Serves p us
  Serves (least_requests_picker p) us = (Served.picker url_string).Serves p us

  pub replace_targets-Serves :
      (p : Picker S) (u : Url) (us : List Url)
      → (q : Picker S) × (replace_targets p (u ∷ us) ≡ some q) × Serves q (u ∷ us)
  unfolding replace_targets
  replace_targets-Serves (round_robin_picker p) u us =
      let (q, e, s) = RoundRobin.picker.replace_serves p u us in
      (round_robin_picker q, rw (e, replace_targets) refl, s)
  replace_targets-Serves (random_picker p) u us =
      let (q, e, s) = (Randomly.picker intn below).replace_serves p u us in
      (random_picker q, rw (e, replace_targets) refl, s)
  replace_targets-Serves (least_requests_picker p) u us =
      let (q, e, s) = (Served.picker url_string).replace_serves p u us in
      (least_requests_picker q, rw (e, replace_targets) refl, s)

  pub acquire_target-Serves :
      (p : Picker S) (us : List Url)
      → Serves p us
      → (q : Picker S) × (v : Url) × (r : Option Release) × (acquire_target p ≡ some (q, v, r))
        × Memᴰ v us
        × Serves q us
  unfolding acquire_target
  acquire_target-Serves (round_robin_picker p) us h =
      let (q, v, r, e, m, s) = RoundRobin.picker.acquire_serves p us h in
      (round_robin_picker q, v, none, rw (e, acquire_target) refl, m, s)
  acquire_target-Serves (random_picker p) us h =
      let (q, v, r, e, m, s) = (Randomly.picker intn below).acquire_serves p us h in
      (random_picker q, v, none, rw (e, acquire_target) refl, m, s)
  acquire_target-Serves (least_requests_picker p) us h =
      let (q, v, r, e, m, s) = (Served.picker url_string).acquire_serves p us h in
      (least_requests_picker q, v, some r, rw (e, acquire_target) refl, m, s)

  abbrev pub pickers : ReplaceablePicker Url (Option Release) (Picker S)
  pickers = record {
    acquire = acquire_target;
    replace = replace_targets;
    Serves = Serves;
    replace_serves = replace_targets-Serves;
    acquire_serves = acquire_target-Serves;
  }
