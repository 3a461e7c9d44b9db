-- ===== src/Examples/CheckerRuns.antt =====
-- A round of internal/upstream/health_checker.go over two targets, of which one is removed.
use dev_gate.Common.{
  zero, suc, ◌≤◌, ◌≡◌, refl, ◌⊎◌, true, false, String, List, [], ◌∷◌, none, some, length, pos,
  codes, insert, lookup,
}
use dev_gate.Upstream.HealthTracker.{
  record_failure_at, record_result, record_success_at, targets, targets_loop, replace, replace_loop,
}
use dev_gate.Upstream.Health.{record_failure, record_success}
use dev_gate.Upstream.HealthChecker.{
  HealthChecker, publish, worker_count, Move, Round, World, check_target, finish, moves, notify,
  probe, probe_result, received, start, step, take,
}
use dev_gate.Upstream.HealthChecker.Counting.{running}
use dev_gate.Upstream.HealthChecker.Recorded.{EndedAt}
use dev_gate.Upstream.HealthChecker.Targets.{IsOpen, round_lem}
use dev_gate.Examples.PoolRuns.{own_text, tracker}

-- The first target answers with 503, and the second one with 204.
abbrev answers : World
answers zero = (received false 503, false)
answers (suc i) = (received false 204, false)

abbrev checker : HealthChecker
checker = record {
  interval = pos 30;
  timeout = pos 5;
  health_path = codes "/healthz";
  max_concurrent_probes = pos 8;
}

-- Both checks run, and the later one ends first; then the first endpoint is removed.
abbrev crossed : List (Move String)
crossed = take 0 ∷ take 1 ∷ finish 1 ∷ publish ("b" ∷ []) ∷ finish 0 ∷ []

abbrev two_targets : List String
two_targets = targets own_text tracker

abbrev ended : Round String
ended = elim (moves own_text answers two_targets (start checker tracker two_targets) crossed) [
  | none ↦ start checker tracker two_targets
  | some r ↦ r
]

moves-ended :
    moves own_text answers two_targets (start checker tracker two_targets) crossed ≡ some ended
unfolding moves step start worker_count check_target probe record_success_at record_failure_at
    record_result record_success record_failure targets targets_loop replace replace_loop lookup
    insert
moves-ended = refl

round_lem_example :
    (running ended.workers ≤ 8)
    × (running ended.workers ≤ length two_targets)
    × (IsOpen ended 0
        ⊎ EndedAt own_text answers two_targets 0 "a"
            (start checker tracker two_targets)
            tracker
            crossed
            ended)
unfolding targets targets_loop lookup insert
round_lem_example =
    round_lem own_text answers checker tracker ended crossed 0 "a" (refl, refl) moves-ended refl

-- The removed endpoint is not tracked any more, so nothing is told of it.
crossed_notices : notify ended.results ≡ probe_result "b" true none ∷ []
unfolding notify moves step start worker_count check_target probe record_success_at
    record_failure_at record_result record_success record_failure targets targets_loop replace
    replace_loop lookup insert
crossed_notices = refl
