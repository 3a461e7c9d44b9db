-- ===== src/Upstream/HealthAwarePicker.antt =====
-- internal/upstream/health_aware_picker.go over any picker. The source's reading is an argument of
-- Refresh, and a call of Acquire or Refresh is one step.
use mathlib.Core.List.{Memᴰ}
use dev_gate.Common.{◌≡◌, refl, Bool, true, false, List, [], ◌∷◌, Option, none, some, if◌then◌else◌}
use dev_gate.Upstream.Picker.{ReplaceablePicker}

pub record HealthAwarePicker (P : Type 0) : Type 0 where
  pub picker : P
  pub available : Bool

-- What Acquire returns; `panicked` is a panic of the picker's Acquire.
pub data Acquired (A : Type 0) : Type 0 where
  no_healthy_endpoints panicked : Acquired A
  granted : A → Acquired A

module _ {Url R P : Type 0} (pickers : ReplaceablePicker Url R P) where
  -- The result is whether there was no error.
  unfoldable pub refresh : HealthAwarePicker P → List Url → HealthAwarePicker P × Bool
  refresh p [] = (record p { available = false }, true)
  refresh p (u ∷ us) = elim (pickers.replace p.picker (u ∷ us)) [
    | none ↦ (record p { available = false }, false)
    | some q ↦ (record { picker = q; available = true }, true)
  ]

  unfoldable pub new : P → List Url → Option (HealthAwarePicker P)
  unfolding refresh
  new p us =
      let (h, fine) = refresh (record { picker = p; available = false }) us in
      if fine then some h else none

  unfoldable pub acquire : HealthAwarePicker P → HealthAwarePicker P × Acquired (Url × R)
  acquire p =
      if p.available
      then elim (pickers.acquire p.picker) [
        | none ↦ (p, panicked)
        | some (q, u, r) ↦ (record p { picker = q }, granted (u, r))
      ]
      else (p, no_healthy_endpoints)

  -- Requests, and refreshes with the endpoints that the source then reports.
  unfoldable pub step : HealthAwarePicker P → Option (List Url) → HealthAwarePicker P
  unfolding refresh acquire
  step p none = (acquire p).0
  step p (some us) = (refresh p us).0

  unfoldable pub run : HealthAwarePicker P → List (Option (List Url)) → HealthAwarePicker P
  unfolding step
  run p [] = p
  run p (o ∷ os) = run (step p o) os

  -- The last reading.
  unfoldable pub reading : List Url → List (Option (List Url)) → List Url
  reading us [] = us
  reading us (none ∷ os) = reading us os
  reading us (some vs ∷ os) = reading vs os

  -- The answer to a request when the source last reported these endpoints.
  unfoldable pub IsAnswer : List Url → Acquired (Url × R) → Type 0
  IsAnswer [] answer = answer ≡ no_healthy_endpoints
  IsAnswer (u ∷ us) answer = (v : Url) × (r : R) × (answer ≡ granted (v, r)) × Memᴰ v (u ∷ us)

  Ready : HealthAwarePicker P → List Url → Type 0
  Ready p [] = p.available ≡ false
  Ready p (u ∷ us) = (p.available ≡ true) × pickers.Serves p.picker (u ∷ us)

  refresh-Ready :
      (p : HealthAwarePicker P) (us : List Url)
      → Ready (refresh p us).0 us × ((refresh p us).1 ≡ true)
  unfolding refresh Ready
  refresh-Ready p [] = (refl, refl)
  refresh-Ready p (u ∷ us) =
      let (q, e, s) = pickers.replace_serves p.picker u us in rw (e, refresh) ((refl, s), refl)

  acquire-Ready : (p : HealthAwarePicker P) (us : List Url) → Ready p us → Ready (acquire p).0 us
  unfolding acquire Ready
  acquire-Ready p [] ready = rw (ready, acquire) refl
  acquire-Ready p (u ∷ us) (available, s) =
      let (q, v, r, e, m, s') = pickers.acquire_serves p.picker (u ∷ us) s in
      rw (available, e, acquire) (available, s')

  acquire-IsAnswer :
      (p : HealthAwarePicker P) (us : List Url) → Ready p us → IsAnswer us (acquire p).1
  unfolding acquire Ready IsAnswer
  acquire-IsAnswer p [] ready = rw (ready, acquire) refl
  acquire-IsAnswer p (u ∷ us) (available, s) =
      let (q, v, r, e, m, s') = pickers.acquire_serves p.picker (u ∷ us) s in
      (v, r, rw (available, e, acquire) refl, m)

  run-Ready :
      (p : HealthAwarePicker P) (us : List Url) (os : List (Option (List Url)))
      → Ready p us
      → Ready (run p os) (reading us os)
  unfolding run step reading
  run-Ready p us [] ready = ready
  run-Ready p us (none ∷ os) ready = run-Ready (acquire p).0 us os (acquire-Ready p us ready)
  run-Ready p us (some vs ∷ os) ready = run-Ready (refresh p vs).0 vs os (refresh-Ready p vs).0

  -- Over a picker that keeps its promise, after every sequence of requests and refreshes of a new
  -- picker, a request is refused exactly when the source last reported no endpoint, and otherwise is
  -- granted an endpoint that it last reported. There is always a new picker.
  pub run-IsAnswer :
      (p : P) (us : List Url) (os : List (Option (List Url)))
      → (h : HealthAwarePicker P) × (new p us ≡ some h)
        × IsAnswer (reading us os) (acquire (run h os)).1
  unfolding new
  run-IsAnswer p us os =
      let h = (refresh (record { picker = p; available = false }) us).0 in
      let (ready, fine) = refresh-Ready (record { picker = p; available = false }) us in
      (
        h,
        rw (fine, new) refl,
        acquire-IsAnswer (run h os) (reading us os) (run-Ready h us os ready),
      )

  -- The answer after a refresh.
  pub refresh-IsAnswer :
      (p : HealthAwarePicker P) (us : List Url)
      → ((refresh p us).1 ≡ true) × IsAnswer us (acquire (refresh p us).0).1
  refresh-IsAnswer p us =
      let (ready, fine) = refresh-Ready p us in (fine, acquire-IsAnswer (refresh p us).0 us ready)
