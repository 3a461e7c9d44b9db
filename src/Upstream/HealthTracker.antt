-- ===== src/Upstream/HealthTracker.antt =====
-- internal/upstream/health_tracker.go. The map's pointers are never shared between keys, so the map
-- holds the states themselves; where Replace writes through a pointer of the old map, the old map
-- is threaded through the loop. A read through a missing pointer would panic: that is `none`.
pub mod Laws
pub mod History
use dev_gate.Common.{
  String, Bool, true, false, List, [], ◌∷◌, ◌++◌, Option, none, some, if◌then◌else◌, ℤ, pos, lez,
  Result, err, ok, ◌>>=◌, ◌>>◌, reject, lookup, insert,
}
use dev_gate.Upstream.Health.{
  EndpointHealth, ThresholdError, new_endpoint_health, record_success, record_failure,
}

abbrev pub HealthMap : Type 0 → Type 0
HealthMap Url = List (String × EndpointHealth Url)

pub record HealthTracker (Url : Type 0) : Type 0 where
  pub health_by_target : HealthMap Url
  pub order : List Url
  pub success_threshold : ℤ
  pub failure_threshold : ℤ

pub data TrackerError : Type 0 where
  no_endpoints success_not_positive failure_not_positive : TrackerError
  create_health_state : String → ThresholdError → TrackerError

module _ {Url : Type 0} (url_string : Url → String) where
  -- newEndpointHealth with its error wrapped.
  abbrev pub create : Url → ℤ → ℤ → Result TrackerError (EndpointHealth Url)
  create endpoint s f = elim (new_endpoint_health endpoint s f) [
    | err e ↦ err (create_health_state (url_string endpoint) e)
    | ok h ↦ ok h
  ]

  -- The loop of NewHealthTracker.
  unfoldable pub fill : ℤ → ℤ → HealthMap Url → List Url → Result TrackerError (HealthMap Url)
  unfolding new_endpoint_health
  fill s f m [] = ok m
  fill s f m (endpoint ∷ rest) = elim (lookup (url_string endpoint) m) [
    | some _ ↦ fill s f m rest
    | none ↦ do h ← create endpoint s f; fill s f (insert (url_string endpoint) h m) rest
  ]

  unfoldable pub new : List Url → ℤ → ℤ → Result TrackerError (HealthTracker Url)
  new [] s f = err no_endpoints
  new (endpoint ∷ rest) s f = do
    reject (lez s (pos 0)) success_not_positive
    reject (lez f (pos 0)) failure_not_positive
    m ← fill s f [] (endpoint ∷ rest)
    ok (record {
      health_by_target = m;
      order = endpoint ∷ rest;
      success_threshold = s;
      failure_threshold = f;
    })

  -- RecordSuccess and RecordFailure differ in the endpoint's method alone. The results are
  -- `changed` and `tracked`.
  unfoldable pub record_result :
      (EndpointHealth Url → EndpointHealth Url × Bool)
      → HealthTracker Url
      → Url
      → HealthTracker Url × Bool × Bool
  record_result method t target = elim (lookup (url_string target) t.health_by_target) [
    | none ↦ (t, false, false)
    | some state ↦ (
      record t {
        health_by_target = insert (url_string target) (method state).0 t.health_by_target;
      },
      (method state).1,
      true,
    )
  ]

  unfoldable pub record_success_at : HealthTracker Url → Url → HealthTracker Url × Bool × Bool
  unfolding record_result record_success
  record_success_at = record_result record_success

  unfoldable pub record_failure_at : HealthTracker Url → Url → HealthTracker Url × Bool × Bool
  unfolding record_result record_failure
  record_failure_at = record_result record_failure

  -- The loop of HealthyEndpoints; `none` is the panic at a missing state.
  unfoldable pub healthy_loop : HealthMap Url → List Url → Option (List Url)
  healthy_loop m [] = some []
  healthy_loop m (endpoint ∷ rest) =
      let healthy = healthy_loop m rest in
      elim (lookup (url_string endpoint) m) [
        | none ↦ none
        | some state ↦ elim healthy [
          | none ↦ none
          | some found ↦ some (if state.healthy then endpoint ∷ found else found)
        ]
      ]

  unfoldable pub healthy_endpoints : HealthTracker Url → Option (List Url)
  unfolding healthy_loop
  healthy_endpoints t = healthy_loop t.health_by_target t.order

  -- The loop of Replace over the old map and the new snapshot. Its results are the old map with
  -- the targets written so far, and the snapshot or the error.
  unfoldable pub replace_loop :
      ℤ
      → ℤ
      → HealthMap Url
      → HealthMap Url
      → List Url
      → HealthMap Url × Result TrackerError (HealthMap Url)
  unfolding new_endpoint_health
  replace_loop s f old snapshot [] = (old, ok snapshot)
  replace_loop s f old snapshot (endpoint ∷ rest) = elim (lookup (url_string endpoint) old) [
    | some state ↦
        replace_loop s f (insert (url_string endpoint) (record state { target = endpoint }) old)
          (insert (url_string endpoint) (record state { target = endpoint }) snapshot) rest
    | none ↦ elim (create endpoint s f) [
      | err e ↦ (old, err e)
      | ok h ↦ replace_loop s f old (insert (url_string endpoint) h snapshot) rest
    ]
  ]

  finish_replace :
      HealthTracker Url
      → List Url
      → HealthMap Url × Result TrackerError (HealthMap Url)
      → HealthTracker Url × Option TrackerError
  finish_replace t endpoints (old, err e) = (record t { health_by_target = old }, some e)
  finish_replace t endpoints (old, ok snapshot) =
      (record t { health_by_target = snapshot; order = endpoints }, none)

  unfoldable pub replace : HealthTracker Url → List Url → HealthTracker Url × Option TrackerError
  unfolding replace_loop finish_replace
  replace t endpoints =
      finish_replace t endpoints
        (replace_loop t.success_threshold t.failure_threshold t.health_by_target [] endpoints)

  -- The loop of Targets; `seen` is the set of the keys met so far.
  unfoldable pub targets_loop : List (String × Unit {0}) → List Url → List Url
  targets_loop seen [] = []
  targets_loop seen (endpoint ∷ rest) = elim (lookup (url_string endpoint) seen) [
    | some _ ↦ targets_loop seen rest
    | none ↦ endpoint ∷ targets_loop (insert (url_string endpoint) tt seen) rest
  ]

  unfoldable pub targets : HealthTracker Url → List Url
  unfolding targets_loop
  targets t = targets_loop [] t.order
