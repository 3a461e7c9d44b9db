-- ===== src/Upstream/HealthChecker/Rounds.antt =====
-- The rounds of internal/upstream/health_checker.go, in every order of the workers and with the
-- endpoints replaced meanwhile.
use text.Mathlib.Text.{◌==◌ as str_eq}
use dev_gate.Common.{
  ℕ, ◌≡◌, refl, ◌∙◌, subst, inl, inr, Bool, false, String, List, [], ◌∷◌, none, some, arith,
  get_elem?, set, lookup, lookup-insert, lez, pos, Option-cases, Bool-cases,
}
use dev_gate.Upstream.HealthTracker.{
  HealthTracker, record_success_at, record_failure_at, record_result, replace,
}
use dev_gate.Upstream.Health.{EndpointHealth, record_success, record_failure}
use dev_gate.Upstream.HealthChecker.{
  CheckResult, Exchange, Move, Round, World, check_target, moves, probe, step, take, finish,
  publish,
}
use dev_gate.Upstream.HealthChecker.Counting.{
  List-cases, busy-taken, busy-finished, get_elem?-set, tasks,
}

module _ {Url : Type 0} (url_string : Url → String) where
  -- A check depends on the state at the target's key alone, and changes no other.
  pub check_target_local :
      (t t' : HealthTracker Url) (u : Url) (x : Exchange) (done : Bool)
      → lookup (url_string u) t.health_by_target ≡ lookup (url_string u) t'.health_by_target
      → (check_target url_string t u x done).1 ≡ (check_target url_string t' u x done).1
  unfolding check_target record_success_at record_failure_at record_result
  check_target_local t t' u x done e = ground (arith, e)

  record_result_other :
      (method : EndpointHealth Url → EndpointHealth Url × Bool) (t : HealthTracker Url) (u : Url)
      (k : String)
      → str_eq (url_string u) k ≡ false
      → lookup k (record_result url_string method t u).0.health_by_target
        ≡ lookup k t.health_by_target
  unfolding record_result
  record_result_other method t u k e =
      elim (Option-cases (lookup (url_string u) t.health_by_target)) [
        | inl n ↦ rw (n, record_result) refl
        | inr (h, n) ↦
            rw (n, record_result)
              (ground (arith, e, lookup-insert (url_string u) k (method h).0 t.health_by_target))
      ]

  pub check_target_other :
      (t : HealthTracker Url) (u : Url) (x : Exchange) (done : Bool) (k : String)
      → str_eq (url_string u) k ≡ false
      → lookup k (check_target url_string t u x done).0.health_by_target
        ≡ lookup k t.health_by_target
  unfolding check_target record_success_at record_failure_at record_result
  check_target_other t u x done k e = elim (Bool-cases done) [
    | inl d ↦ ground (arith, d)
    | inr d ↦ elim (Option-cases (probe x)) [
      | inl n ↦ rw (d, n, check_target) (record_result_other record_success t u k e)
      | inr (p, n) ↦ rw (d, n, check_target) (record_result_other record_failure t u k e)
    ]
  ]

  pub check_target-thresholds :
      (t : HealthTracker Url) (u : Url) (x : Exchange) (done : Bool)
      → ((check_target url_string t u x done).0.success_threshold ≡ t.success_threshold)
        × ((check_target url_string t u x done).0.failure_threshold ≡ t.failure_threshold)
  unfolding check_target record_success_at record_failure_at record_result
  check_target-thresholds t u x done = ground arith

-- The result of a target that is checked alone, on a tracker.
abbrev pub alone :
    {Url : Type 0} → (Url → String) → World → HealthTracker Url → ℕ → Url → CheckResult Url
alone url_string world t i u = (check_target url_string t u (world i).0 (world i).1).1

-- A tracker of which the moves replace the endpoints, without any check.
abbrev pub replaced :
    {Url : Type 0} → (Url → String) → HealthTracker Url → Move Url → HealthTracker Url
replaced url_string t (take place) = t
replaced url_string t (finish place) = t
replaced url_string t (publish vs) = (replace url_string t vs).0

abbrev pub all_replaced :
    {Url : Type 0} → (Url → String) → HealthTracker Url → List (Move Url) → HealthTracker Url
all_replaced url_string t [] = t
all_replaced url_string t (m ∷ ms) = all_replaced url_string (replaced url_string t m) ms

abbrev pub IsPositive : {Url : Type 0} → HealthTracker Url → Type 0
IsPositive t = (lez t.success_threshold (pos 0) ≡ false) × (lez t.failure_threshold (pos 0) ≡ false)

module _ {Url : Type 0} (url_string : Url → String) (world : World) (us : List Url) where
  abbrev pub taken : Round Url → ℕ → ℕ → List ℕ → Round Url
  taken r place j js = record r { jobs = js; workers = set r.workers place (some j) }

  abbrev pub finished : Round Url → ℕ → ℕ → Url → Round Url
  finished r place j v = record r {
    tracker = (check_target url_string r.tracker v (world j).0 (world j).1).0;
    workers = set r.workers place none;
    results =
        set r.results j (some (check_target url_string r.tracker v (world j).0 (world j).1).1);
  }

  pub step-take :
      (r r' : Round Url) (place : ℕ)
      → step url_string world us r (take place) ≡ some r'
      → (j : ℕ) × (js : List ℕ) × (r.jobs ≡ j ∷ js)
        × (get_elem? r.workers place ≡ some none)
        × (taken r place j js ≡ r')
  unfolding step
  step-take r r' place e = elim (List-cases r.jobs) [
    | inl n ↦ absurd (ground (arith, e, n))
    | inr (j, js, n) ↦ elim (Option-cases (get_elem? r.workers place)) [
      | inl w ↦ absurd (ground (arith, e, n, w))
      | inr (worker, w) ↦ elim (Option-cases worker) [
        | inl idle ↦ (j, js, n, rw idle at w, ground (arith, e, n, w, idle))
        | inr (k, at_work) ↦ absurd (ground (arith, e, n, w, at_work))
      ]
    ]
  ]

  pub step-finish :
      (r r' : Round Url) (place : ℕ)
      → step url_string world us r (finish place) ≡ some r'
      → (j : ℕ) × (v : Url) × (get_elem? r.workers place ≡ some (some j))
        × (get_elem? us j ≡ some v)
        × (finished r place j v ≡ r')
  unfolding step
  step-finish r r' place e = elim (Option-cases (get_elem? r.workers place)) [
    | inl w ↦ absurd (ground (arith, e, w))
    | inr (worker, w) ↦ elim (Option-cases worker) [
      | inl idle ↦ absurd (ground (arith, e, w, idle))
      | inr (j, at_work) ↦ elim (Option-cases (get_elem? us j)) [
        | inl k ↦ absurd (ground (arith, e, w, at_work, k))
        | inr (v, k) ↦ (j, v, rw at_work at w, k, ground (arith, e, w, at_work, k))
      ]
    ]
  ]

  -- What is recorded stays.
  step-recorded :
      (r r' : Round Url) (m : Move Url) (i : ℕ)
      → step url_string world us r m ≡ some r'
      → tasks i r ≡ 0
      → (tasks i r' ≡ 0) × (get_elem? r'.results i ≡ get_elem? r.results i)
  unfolding step
  step-recorded r r' (take place) i e gone =
      let (j, js, n, w, same) = step-take r r' place e in
      subst (λ x. (tasks i x ≡ 0) × (get_elem? x.results i ≡ get_elem? r.results i)) same
        (ground (arith, gone, n, busy-taken i j place r.workers w), refl)
  step-recorded r r' (finish place) i e gone =
      let (j, v, w, k, same) = step-finish r r' place e in
      let counted = busy-finished i j place r.workers w in
      let result = (check_target url_string r.tracker v (world j).0 (world j).1).1 in
      subst (λ x. (tasks i x ≡ 0) × (get_elem? x.results i ≡ get_elem? r.results i)) same
        (
          ground (arith, gone, counted),
          ground (arith, gone, counted, get_elem?-set r.results j i (some result)),
        )
  step-recorded r r' (publish vs) i e gone = (ground (arith, e, gone), ground (arith, e))

  pub moves-recorded :
      (r r' : Round Url) (ms : List (Move Url)) (i : ℕ)
      → moves url_string world us r ms ≡ some r'
      → tasks i r ≡ 0
      → (tasks i r' ≡ 0) × (get_elem? r'.results i ≡ get_elem? r.results i)
  unfolding moves
  moves-recorded r r' [] i e gone = (ground (arith, e, gone), ground (arith, e))
  moves-recorded r r' (m ∷ ms) i e gone = elim (Option-cases (step url_string world us r m)) [
    | inl n ↦ absurd (ground (arith, e, n))
    | inr (s, n) ↦
        let (gone', kept') = step-recorded r s m i n gone in
        let (gone'', kept'') = moves-recorded s r' ms i (ground (arith, e, n)) gone' in
        (gone'', kept'' ∙ kept')
  ]
