-- ===== src/Examples/PoolRuns.antt =====
-- internal/upstream on endpoints that are their own texts.
use dev_gate.Common.{
  ℕ, ◌%◌, ◌<◌, ◌≡◌, refl, String, true, false, List, [], ◌∷◌, some, arith, ok, pos, length, lookup,
  insert,
}
use dev_gate.Upstream.Health.{EndpointHealth}
use dev_gate.Upstream.HealthTracker.{HealthTracker, healthy_endpoints}
use dev_gate.Upstream.HealthTracker
use dev_gate.Upstream.HealthTracker.History as Trackers
use dev_gate.Upstream.LeastRequests.{Endpoint, LeastRequests, Release, place, take_permit, acquire}
use dev_gate.Upstream.LeastRequests
use dev_gate.Upstream.LeastRequests.Permits.{acquires, releases_at, replaces}
use dev_gate.Upstream.LeastRequests.Permits as Pool
use dev_gate.Upstream.LeastRequests.Selection.{First, index, load, acquire-First}

abbrev pub own_text : String → String
own_text u = u

abbrev steady : EndpointHealth String
steady = record {
  target = "a";
  healthy = true;
  consecutive_successes = 0;
  success_threshold = 2;
  consecutive_failures = 1;
  failure_threshold = 3;
}

abbrev broken : EndpointHealth String
broken = record steady { healthy = false; consecutive_successes = 1; consecutive_failures = 0 }

abbrev pub tracker : HealthTracker String
tracker = record {
  health_by_target =
      ("a", record steady { consecutive_failures = 0 })
      ∷ ("b", record steady { target = "b"; consecutive_failures = 0 })
      ∷ [];
  order = "a" ∷ "b" ∷ "a" ∷ [];
  success_threshold = pos 2;
  failure_threshold = pos 3;
}

pub tracker_made : HealthTracker.new own_text ("a" ∷ "b" ∷ "a" ∷ []) (pos 2) (pos 3) ≡ ok tracker
unfolding HealthTracker.new HealthTracker.fill lookup insert
tracker_made = refl

abbrev tracker_history : List (Trackers.Op String)
tracker_history =
    Trackers.Op.fail "a"
    ∷ Trackers.Op.fail "a"
    ∷ Trackers.Op.fail "a"
    ∷ Trackers.Op.publish ("a" ∷ "c" ∷ [])
    ∷ []

abbrev no_memory : ℕ → Endpoint String
no_memory a = record { target = ""; active_requests = 0 }

abbrev pool : LeastRequests String
pool = record {
  memory =
      LeastRequests.write
        (LeastRequests.write no_memory 0 (record { target = "a"; active_requests = 0 })) 1
        (record { target = "b"; active_requests = 0 });
  next = 2;
  endpoints = 0 ∷ 1 ∷ [];
  cursor = 0;
}

abbrev pool_history : List (Pool.Op String)
pool_history =
    acquires ∷ acquires ∷ acquires ∷ releases_at 1 ∷ releases_at 1 ∷ replaces ("b" ∷ "c" ∷ []) ∷ []

acquire-First_example :
    (m : ℕ) × (m < length pool.endpoints)
    × First (load pool.memory pool.endpoints (0 % 2)) m (length pool.endpoints)
    × (acquire pool ≡ some (take_permit pool (index pool.memory pool.endpoints (0 % 2) m)))
acquire-First_example = acquire-First pool (omega arith)
