-- ===== src/Upstream/PassiveHealth.antt =====
-- internal/upstream/passive_health_tracker.go. A state is reached
-- only through the map, and a permit's pointer serves only to tell whether the map still holds the
-- same state; so the map holds the states, each with its address. A reading of `t.now()` is an
-- argument, instants and durations are naturals, and the zero `time.Time` is `none`.
pub mod Transport
pub mod Permits
pub mod Operations
pub mod InFlight
pub mod Stale
pub mod Ejection
pub mod Recovery
use dev_gate.Common.{
  ℕ, suc, ◌+◌, ◌-◌, ◌%◌, String, Bool, true, false, not, ◌&&◌, ◌||◌, List, [], ◌∷◌, Option, none,
  some, if◌then◌else◌, ltb, leb, ◌==◌, word, ℤ, pos, pos_part, lez, lookup, insert, Result, err, ok,
  ◌>>◌, reject,
}
use dev_gate.Http.{Exchange}

pub record PassiveEndpointHealth (Url : Type 0) : Type 0 where
  pub address : ℕ
  pub target : Url
  pub consecutive_failures : ℕ
  pub ejection_until : Option ℕ
  pub generation : ℕ  -- uint64

abbrev pub PassiveMap : Type 0 → Type 0
PassiveMap Url = List (String × PassiveEndpointHealth Url)

pub record PassiveHealthTracker (Url : Type 0) : Type 0 where
  pub ordered : List Url
  pub state_by_target : PassiveMap Url
  pub failure_threshold : ℕ
  pub ejection_duration : ℕ
  pub next_address : ℕ

pub record PassivePermit : Type 0 where
  pub key : String
  pub state : ℕ
  pub generation : ℕ  -- uint64

pub data PassiveOutcome : Type 0 where
  ignored failure success : PassiveOutcome

pub data PassiveError : Type 0 where
  no_endpoints threshold_not_positive duration_not_positive : PassiveError

abbrev pub next_generation : ℕ → ℕ
next_generation g = (g + 1) % word

module _ {Url : Type 0} where
  -- `&passiveEndpointHealth{target: endpoint}` at an address.
  abbrev pub fresh : ℕ → Url → PassiveEndpointHealth Url
  fresh a u = record {
    address = a;
    target = u;
    consecutive_failures = 0;
    ejection_until = none;
    generation = 0;
  }

  -- endpointAvailableLocked
  unfoldable pub endpoint_available :
      PassiveEndpointHealth Url → ℕ → PassiveEndpointHealth Url × Bool
  endpoint_available state now = elim state.ejection_until [
    | none ↦ (state, true)
    | some until ↦ if ltb now until then (state, false) else (
      record state {
        ejection_until = none;
        consecutive_failures = 0;
        generation = next_generation state.generation;
      },
      true,
    )
  ]

  -- The `switch outcome` of recordOutcome.
  unfoldable pub count_outcome :
      ℕ → ℕ → PassiveEndpointHealth Url → PassiveOutcome → ℕ → PassiveEndpointHealth Url × Bool
  count_outcome threshold duration state success now =
      (record state { consecutive_failures = 0 }, false)
  count_outcome threshold duration state failure now =
      if leb threshold (state.consecutive_failures + 1)
      then (
        record state {
          ejection_until = some (now + duration);
          consecutive_failures = 0;
          generation = next_generation state.generation;
        },
        true,
      )
      else (record state { consecutive_failures = state.consecutive_failures + 1 }, false)
  count_outcome threshold duration state ignored now = (state, false)

  -- The loop of NextRecoveryDelay over the map.
  unfoldable pub earliest_loop : Option ℕ → PassiveMap Url → Option ℕ
  earliest_loop earliest [] = earliest
  earliest_loop earliest ((k, state) ∷ m) =
      earliest_loop
        (elim state.ejection_until [
          | none ↦ earliest
          | some until ↦ elim earliest [
            | none ↦ some until
            | some e ↦ some (if ltb until e then until else e)
          ]
        ])
        m

  -- `none` is that no recovery is pending; a negative delay becomes 0, as `-` on ℕ does.
  unfoldable pub next_recovery_delay : PassiveHealthTracker Url → ℕ → Option ℕ
  next_recovery_delay t now = elim (earliest_loop none t.state_by_target) [
    | none ↦ none
    | some e ↦ some (e - now)
  ]

module _ {Url : Type 0} (url_string : Url → String) where
  -- The loop of NewPassiveHealthTracker: the map and the next address.
  unfoldable pub fill : PassiveMap Url → ℕ → List Url → PassiveMap Url × ℕ
  fill m a [] = (m, a)
  fill m a (u ∷ us) = elim (lookup (url_string u) m) [
    | some _ ↦ fill m a us
    | none ↦ fill (insert (url_string u) (fresh a u) m) (a + 1) us
  ]

  unfoldable pub new : List Url → ℤ → ℤ → Result PassiveError (PassiveHealthTracker Url)
  new [] threshold duration = err no_endpoints
  new (u ∷ us) threshold duration = do
    reject (lez threshold (pos 0)) threshold_not_positive
    reject (lez duration (pos 0)) duration_not_positive
    let (m, a) = fill [] 0 (u ∷ us)
    ok (record {
      ordered = u ∷ us;
      state_by_target = m;
      failure_threshold = pos_part threshold;
      ejection_duration = pos_part duration;
      next_address = a;
    })

  -- The loop of HealthyEndpoints.
  unfoldable pub healthy_loop : ℕ → PassiveMap Url → List Url → PassiveMap Url × List Url
  healthy_loop now m [] = (m, [])
  healthy_loop now m (u ∷ us) = elim (lookup (url_string u) m) [
    | none ↦ healthy_loop now m us
    | some state ↦
        let (state', available) = endpoint_available state now in
        let (m', found) = healthy_loop now (insert (url_string u) state' m) us in
        (m', if available then u ∷ found else found)
  ]

  unfoldable pub healthy_endpoints :
      PassiveHealthTracker Url → ℕ → PassiveHealthTracker Url × List Url
  healthy_endpoints t now =
      let (m, found) = healthy_loop now t.state_by_target t.ordered in
      (record t { state_by_target = m }, found)

  -- The loop of Replace: the new map and the next address.
  unfoldable pub replace_loop : PassiveMap Url → PassiveMap Url → ℕ → List Url → PassiveMap Url × ℕ
  replace_loop old m a [] = (m, a)
  replace_loop old m a (u ∷ us) = elim (lookup (url_string u) old) [
    | some existing ↦
        replace_loop old (insert (url_string u) (record existing { target = u }) m) a us
    | none ↦ replace_loop old (insert (url_string u) (fresh a u) m) (a + 1) us
  ]

  unfoldable pub replace : PassiveHealthTracker Url → List Url → PassiveHealthTracker Url
  replace t us =
      let (m, a) = replace_loop t.state_by_target [] t.next_address us in
      record t { ordered = us; state_by_target = m; next_address = a }

  unfoldable pub acquire_permit :
      PassiveHealthTracker Url → Url → ℕ → PassiveHealthTracker Url × Option PassivePermit
  acquire_permit t target now = elim (lookup (url_string target) t.state_by_target) [
    | none ↦ (t, none)
    | some state ↦
        let (state', available) = endpoint_available state now in
        (
          record t { state_by_target = insert (url_string target) state' t.state_by_target },
          if available
              then some (record {
                key = url_string target;
                state = state'.address;
                generation = state'.generation;
              })
              else none,
        )
  ]

-- recordOutcome; the result is whether the endpoint was ejected.
unfoldable pub record_outcome :
    {Url : Type 0}
    → PassiveHealthTracker Url
    → PassivePermit
    → PassiveOutcome
    → ℕ
    → PassiveHealthTracker Url × Bool
record_outcome t permit outcome now = elim (lookup permit.key t.state_by_target) [
  | none ↦ (t, false)
  | some state ↦
      if not (state.generation == permit.generation) || not (state.address == permit.state)
      then (t, false)
      else (let (state', ejected) =
            count_outcome t.failure_threshold t.ejection_duration state outcome now in
          (record t { state_by_target = insert permit.key state' t.state_by_target }, ejected))
]
