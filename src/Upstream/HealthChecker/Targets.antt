-- ===== src/Upstream/HealthChecker/Targets.antt =====
-- The rounds of internal/upstream/health_checker.go over what Targets of health_tracker.go lists.
use text.Mathlib.Text.{◌==◌ as str_eq}
use text.Mathlib.TextEquality.{eq_iff}
use dev_gate.Common.{
  ℕ, zero, suc, ◌≤◌, ◌≡◌, refl, ap, ◌∙◌, subst, inl, inr, true, false, String, List, [], ◌∷◌, none,
  some, arith, ◌⊎◌, length, get_elem?, lookup, insert, lookup-insert, Option-cases, pos_part,
}
use dev_gate.Upstream.HealthTracker.{HealthTracker, targets, targets_loop}
use dev_gate.Upstream.HealthChecker.{
  HealthChecker, Move, Round, World, moves, start, step, take, finish, publish, worker_count,
}
use dev_gate.Upstream.HealthChecker.Counting.{
  tasks, running, running-length, length-set, length-idle_workers, busy-idle_workers, count-indices,
  get_elem?-lt, get_elem?-zero_results,
}
use dev_gate.Upstream.HealthChecker.Rounds.{IsPositive, step-take, step-finish}
use dev_gate.Upstream.HealthChecker.Recorded.{EndedAt, moves-Pending}

module _ {Url : Type 0} (url_string : Url → String) where
  -- A key that is not seen once another one is added.
  unseen :
      (seen : List (String × Unit {0})) (k j : String)
      → lookup j (insert k tt seen) ≡ none
      → (lookup j seen ≡ none) × (str_eq k j ≡ false)
  unseen seen k j e =
      (ground (arith, e, lookup-insert k j tt seen), ground (arith, e, lookup-insert k j tt seen))

  targets_loop-lookup :
      (seen : List (String × Unit {0})) (us : List Url) (i : ℕ) (u : Url)
      → get_elem? (targets_loop url_string seen us) i ≡ some u
      → lookup (url_string u) seen ≡ none
  unfolding targets_loop
  targets_loop-lookup seen [] i u e = absurd (cc)
  targets_loop-lookup seen (w ∷ us) i u e = elim (Option-cases (lookup (url_string w) seen)) [
    | inr (x, n) ↦ targets_loop-lookup seen us i u (ground (arith, e, n))
    | inl n ↦
        elim i
            as (λ k.
              get_elem? (w ∷ targets_loop url_string (insert (url_string w) tt seen) us) k ≡ some u
              → lookup (url_string u) seen ≡ none) [
                | zero ↦ λ q. ground (arith, q, n)
                | suc k ↦ λ q.
                    (unseen seen (url_string w) (url_string u)
                      (targets_loop-lookup (insert (url_string w) tt seen) us k u q)).0
              ]
          (ground (arith, e, n))
  ]

  other_than_head :
      (seen : List (String × Unit {0})) (w : Url) (us : List Url) (i : ℕ) (u : Url)
      → get_elem? (targets_loop url_string (insert (url_string w) tt seen) us) i ≡ some u
      → str_eq (url_string w) (url_string u) ≡ false
  other_than_head seen w us i u e =
      (unseen seen (url_string w) (url_string u)
        (targets_loop-lookup (insert (url_string w) tt seen) us i u e)).1

  -- The targets that are left once `seen` holds the keys met.
  abbrev left : List (String × Unit {0}) → Url → List Url → List Url
  left seen w us = w ∷ targets_loop url_string (insert (url_string w) tt seen) us

  -- The places of equal keys are one.
  abbrev Apart : List Url → Type 0
  Apart us =
      (i j : ℕ) (u v : Url)
      → get_elem? us i ≡ some u
      → get_elem? us j ≡ some v
      → str_eq (url_string u) (url_string v) ≡ true
      → i ≡ j

  left-Apart :
      (seen : List (String × Unit {0})) (w : Url) (us : List Url)
      → Apart (targets_loop url_string (insert (url_string w) tt seen) us)
      → Apart (left seen w us)
  left-Apart seen w us ih zero zero u v e f same = refl
  left-Apart seen w us ih zero (suc j) u v e f same =
      absurd (ground (arith, e, same, other_than_head seen w us j v f))
  left-Apart seen w us ih (suc i) zero u v e f same = absurd (
      ground (
        arith,
        f,
        same,
        other_than_head seen w us i u e,
        eq_iff (url_string u) (url_string v),
        eq_iff (url_string w) (url_string u),
      ))
  left-Apart seen w us ih (suc i) (suc j) u v e f same = ap suc (ih i j u v e f same)

  targets_loop-Apart :
      (seen : List (String × Unit {0})) (us : List Url) → Apart (targets_loop url_string seen us)
  unfolding targets_loop
  targets_loop-Apart seen [] i j u v e f same = absurd (cc)
  targets_loop-Apart seen (w ∷ us) i j u v e f same =
      elim (Option-cases (lookup (url_string w) seen)) [
        | inr (x, n) ↦
            targets_loop-Apart seen us i j u v (ground (arith, e, n)) (ground (arith, f, n)) same
        | inl n ↦
            left-Apart seen w us (targets_loop-Apart (insert (url_string w) tt seen) us) i j u v
              (ground (arith, e, n)) (ground (arith, f, n)) same
      ]

targets-Apart :
    {Url : Type 0} (url_string : Url → String) (t : HealthTracker Url)
    → Apart url_string (targets url_string t)
unfolding targets
targets-Apart url_string t = targets_loop-Apart url_string [] t.order

module _ {Url : Type 0} (url_string : Url → String) (world : World) (us : List Url) where
  step-workers :
      (r r' : Round Url) (m : Move Url)
      → step url_string world us r m ≡ some r'
      → length r'.workers ≡ length r.workers
  unfolding step
  step-workers r r' (take place) e =
      let (j, js, n, w, same) = step-take url_string world us r r' place e in
      subst (λ x. length x.workers ≡ length r.workers) same (length-set r.workers place (some j))
  step-workers r r' (finish place) e =
      let (j, v, w, k, same) = step-finish url_string world us r r' place e in
      subst (λ x. length x.workers ≡ length r.workers) same (length-set r.workers place none)
  step-workers r r' (publish vs) e = ground (arith, e)

  moves-workers :
      (r r' : Round Url) (ms : List (Move Url))
      → moves url_string world us r ms ≡ some r'
      → length r'.workers ≡ length r.workers
  unfolding moves
  moves-workers r r' [] e = ground (arith, e)
  moves-workers r r' (m ∷ ms) e = elim (Option-cases (step url_string world us r m)) [
    | inl n ↦ absurd (ground (arith, e, n))
    | inr (s, n) ↦ moves-workers s r' ms (ground (arith, e, n)) ∙ step-workers r s m n
  ]

  -- At the start a target is among the jobs, and nothing else has happened.
  start-tasks :
      (c : HealthChecker) (t : HealthTracker Url) (i : ℕ) (u : Url)
      → get_elem? us i ≡ some u
      → (tasks i (start c t us) ≡ 1) × (get_elem? (start c t us).results i ≡ some none)
  unfolding start
  start-tasks c t i u e =
      let lt = get_elem?-lt us i u e in
      (
        omega (
          arith,
          count-indices i 0 (length us) (omega arith) (omega (arith, lt)),
          busy-idle_workers i (worker_count c us),
        ),
        get_elem?-zero_results i (length us) lt,
      )

  running_lem :
      (c : HealthChecker) (t : HealthTracker Url) (r : Round Url) (ms : List (Move Url))
      → moves url_string world us (start c t us) ms ≡ some r
      → (running r.workers ≤ pos_part c.max_concurrent_probes) × (running r.workers ≤ length us)
  unfolding start worker_count
  running_lem c t r ms e =
      let same = moves-workers (start c t us) r ms e in
      let idle = length-idle_workers (worker_count c us) in
      let most = running-length r.workers in
      (ground (arith, same, idle, most), ground (arith, same, idle, most))

-- The target is just once among the jobs or the running checks, without a result.
abbrev pub IsOpen : {Url : Type 0} → Round Url → ℕ → Type 0
IsOpen r i = (tasks i r ≡ 1) × (get_elem? r.results i ≡ some none)

-- A round over the targets that Targets lists, on a tracker with positive thresholds, in whatever
-- order the workers take the jobs and end their checks, and with the endpoints of the tracker
-- replaced in between. At any moment no more checks run than the checker allows, nor than there are
-- targets; and each target is either just once among the jobs or the running checks, without a
-- result, or no more among them, since a worker that had taken it has ended its check: its result is
-- then the one that its own check has on the tracker of which only the endpoints have been replaced
-- till then.
pub round_lem :
    {Url : Type 0} (url_string : Url → String) (world : World) (c : HealthChecker)
    (t : HealthTracker Url) (r : Round Url) (ms : List (Move Url)) (i : ℕ) (u : Url)
    → IsPositive t
    → moves url_string world (targets url_string t) (start c t (targets url_string t)) ms ≡ some r
    → get_elem? (targets url_string t) i ≡ some u
    → (running r.workers ≤ pos_part c.max_concurrent_probes)
      × (running r.workers ≤ length (targets url_string t))
      × (IsOpen r i
          ⊎ EndedAt url_string world
              (targets url_string t)
              i
              u
              (start c t (targets url_string t))
              t
              ms
              r)
unfolding start
round_lem url_string world c t r ms i u p e q =
    let us = targets url_string t in
    let (few, fewer) = running_lem url_string world us c t r ms e in
    let (one, blank) = start-tasks url_string world us c t i u q in
    (
      few,
      fewer,
      elim (moves-Pending url_string world us i u q (targets-Apart url_string t) (start c t us) r t
          ms e p (one, blank, (refl, refl, refl))) [
            | inl (one', blank', alike) ↦ inl (one', blank')
            | inr ended ↦ inr ended
          ],
    )
