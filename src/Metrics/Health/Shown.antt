-- ===== src/Metrics/Health/Shown.antt =====
-- What the gauge of internal/metrics/active_health_check.go shows of the tracker of
-- internal/upstream/health_tracker.go.
use mathlib.Core.List.{Memᴰ}
use text.Mathlib.TextEquality.{eq_iff}
use text.Mathlib.TextPositions.{eq_refl}
use dev_gate.Common.{
  ◌≤◌, ◌≡◌, refl, sym, ap, subst, ◌∙◌, ◌↔◌, Result-cases, Bool, true, false, inl, inr, List, [],
  ◌∷◌, Option, some, String, if◌then◌else◌, arith, ℤ, ok, lookup, insert, lookup-insert,
  Option-cases,
}
use dev_gate.Upstream.Health.{EndpointHealth, new_endpoint_health, record_success, record_failure}
use dev_gate.Upstream.HealthTracker.{
  HealthMap, HealthTracker, fill, new, record_result, record_success_at, record_failure_at,
}
use dev_gate.Upstream.HealthTracker.Laws.{has, named, new-Inv}
use dev_gate.Upstream.HealthTracker.History.{is_healthy}
use dev_gate.Upstream.HealthChecker.{Exchange, CheckResult, check_target, probe, notify}
use dev_gate.Metrics.Prometheus.{Vectors, labels_eq, exact}
use dev_gate.Metrics.Health.{
  ActiveHealthCheck, flag, set_endpoint_healthy, active_for_route, notices,
}

-- A check of a target: what its probe meets, and whether the context is done after it.
abbrev pub Check : Type 0 → Type 0
Check Url = Url × Exchange × Bool

module _ {Url : Type 0} (url_string : Url → String) where
  -- Checks one after another, with their results.
  unfoldable pub checks :
      HealthTracker Url → List (Check Url) → HealthTracker Url × List (Option (CheckResult Url))
  unfolding check_target
  checks t [] = (t, [])
  checks t ((u, x, done) ∷ cs) =
      let (t', r) = check_target url_string t u x done in
      let (t'', rs) = checks t' cs in (t'', some r ∷ rs)

-- A method tells of a change exactly when the health changes, and to what.
success_changes :
    {Url : Type 0} (h : EndpointHealth Url)
    → (record_success h).0.healthy ≡ (if (record_success h).1 then true else h.healthy)
unfolding record_success
success_changes h = ground arith

failure_changes :
    {Url : Type 0} (h : EndpointHealth Url)
    → (record_failure h).0.healthy ≡ (if (record_failure h).1 then false else h.healthy)
unfolding record_failure
failure_changes h = ground arith

pub flag_small : (b : Bool) → flag b ≤ exact
flag_small b = ground arith

module _ {Url : Type 0} (url_string : Url → String) where
  fill_healthy :
      (s f : ℤ) (m m' : HealthMap Url) (us : List Url)
      → fill url_string s f m us ≡ ok m'
      → ((k : String) (h : EndpointHealth Url) → lookup k m ≡ some h → h.healthy ≡ true)
      → (k : String) (h : EndpointHealth Url) → lookup k m' ≡ some h
      → h.healthy ≡ true
  unfolding fill new_endpoint_health
  fill_healthy s f m m' [] e all k h q = all k h (ground (arith, e, q))
  fill_healthy s f m m' (u ∷ us) e all k h q = elim (Option-cases (lookup (url_string u) m)) [
    | inr (g, n) ↦ fill_healthy s f m m' us (ground (arith, e, n)) all k h q
    | inl n ↦ elim (Result-cases (new_endpoint_health u s f)) [
      | inl (x, n') ↦ absurd (ground (arith, e, n, n'))
      | inr (g, n') ↦
          fill_healthy s f (insert (url_string u) g m) m' us (ground (arith, e, n, n'))
            (λ j i r. ground (arith, all j i, n', r, lookup-insert (url_string u) j g m)) k h q
    ]
  ]

  new_healthy :
      (us : List Url) (s f : ℤ) (t : HealthTracker Url)
      → new url_string us s f ≡ ok t
      → (k : String) (h : EndpointHealth Url) → lookup k t.health_by_target ≡ some h
      → h.healthy ≡ true
  unfolding new lookup
  new_healthy [] s f t e k h q = absurd (cc)
  new_healthy (u ∷ us) s f t e k h q = elim (Result-cases (fill url_string s f [] (u ∷ us))) [
    | inl (x, n) ↦ absurd (ground (arith, e, n))
    | inr (m, n) ↦
        fill_healthy s f [] m (u ∷ us) n (λ j i r. absurd (cc)) k h (ground (arith, e, n, q))
  ]

  new_order :
      (us : List Url) (s f : ℤ) (t : HealthTracker Url)
      → new url_string us s f ≡ ok t
      → t.order ≡ us
  unfolding new
  new_order [] s f t e = absurd (cc)
  new_order (u ∷ us) s f t e = elim (Result-cases (fill url_string s f [] (u ∷ us))) [
    | inl (x, n) ↦ absurd (ground (arith, e, n))
    | inr (m, n) ↦ ground (arith, e, n)
  ]

  named-Memᴰ : (us : List Url) (u : Url) → Memᴰ u us → named url_string (url_string u) us ≡ true
  named-Memᴰ [] u i = elim i [ ]
  named-Memᴰ (v ∷ us) u (Memᴰ.head e) = ground (arith, e, eq_refl (url_string u))
  named-Memᴰ (v ∷ us) u (Memᴰ.tail i) = ground (arith, named-Memᴰ us u i)

module _ {V Url : Type 0} (vs : Vectors V) (redacted url_string : Url → String) (route : String)
    (u : Url)
    (particular : (v : Url) → (redacted v ≡ redacted u) ↔ (url_string v ≡ url_string u)) where
  -- The gauge of the endpoint shows its health, and the tracker has it.
  abbrev Shows : ActiveHealthCheck V → HealthTracker Url → Type 0
  Shows m t =
      (vs.value m.endpoint_healthy (route ∷ redacted u ∷ [])
        ≡ flag (is_healthy url_string t.health_by_target u))
      × (has url_string (url_string u) t.health_by_target ≡ true)

  notices-result :
      (m : ActiveHealthCheck V) (t : HealthTracker Url) (r : CheckResult Url)
      (method : EndpointHealth Url → EndpointHealth Url × Bool)
      → ((h : EndpointHealth Url)
          → (method h).0.healthy ≡ (if (method h).1 then r.healthy else h.healthy))
      → (record_result url_string method t r.target).1 ≡ r.changed
      → (record_result url_string method t r.target).2 ≡ r.tracked
      → Shows m t
      → Shows
          (notices vs redacted m route (notify (some r ∷ [])))
          (record_result url_string method t r.target).0
  unfolding record_result notices notify labels_eq
  notices-result m t r method changes e f (shows, there) =
      elim (Option-cases (lookup (url_string r.target) t.health_by_target)) [
        | inl n ↦ (ground (arith, n, e, f, shows), ground (arith, n, there))
        | inr (h, n) ↦ (
          ground (
            arith,
            n,
            e,
            f,
            shows,
            changes h,
            particular r.target,
            eq_refl route,
            eq_iff (redacted r.target) (redacted u),
            eq_iff (url_string r.target) (url_string u),
            lookup-insert (url_string r.target) (url_string u) (method h).0 t.health_by_target,
            vs.value-set m.endpoint_healthy (route ∷ redacted r.target ∷ [])
                (route ∷ redacted u ∷ []) (flag r.healthy) (flag_small r.healthy),
          ),
          ground (
            arith,
            n,
            there,
            lookup-insert (url_string r.target) (url_string u) (method h).0 t.health_by_target,
          ),
        )
      ]

  check-Shows :
      (m : ActiveHealthCheck V) (t : HealthTracker Url) (v : Url) (x : Exchange) (done : Bool)
      → Shows m t
      → Shows
          (notices vs redacted m route (notify (some (check_target url_string t v x done).1 ∷ [])))
          (check_target url_string t v x done).0
  unfolding check_target record_success_at record_failure_at notify notices
  check-Shows m t v x true s = s
  check-Shows m t v x false s = elim (Option-cases (probe x)) [
    | inl n ↦ rw (n, check_target) (notices-result m t _ record_success success_changes refl refl s)
    | inr (e, n) ↦
        rw (n, check_target) (notices-result m t _ record_failure failure_changes refl refl s)
  ]

  notify-∷ :
      (r : CheckResult Url) (rs : List (Option (CheckResult Url))) (m : ActiveHealthCheck V)
      → notices vs redacted m route (notify (some r ∷ rs))
        ≡ notices vs redacted (notices vs redacted m route (notify (some r ∷ []))) route (notify rs)
  unfolding notify notices
  notify-∷ r rs m = ground arith

  checks-Shows :
      (m : ActiveHealthCheck V) (t : HealthTracker Url) (cs : List (Check Url))
      → Shows m t
      → Shows
          (notices vs redacted m route (notify (checks url_string t cs).1))
          (checks url_string t cs).0
  unfolding checks notify notices
  checks-Shows m t [] s = s
  checks-Shows m t ((v, x, done) ∷ cs) s =
      let (t', r) = check_target url_string t v x done in
      subst (λ m'. Shows m' (checks url_string t' cs).0)
        (sym (notify-∷ r (checks url_string t' cs).1 m))
        (checks-Shows (notices vs redacted m route (notify (some r ∷ []))) t' cs
          (check-Shows m t v x done s))

  active_for_route-kept :
      (m : ActiveHealthCheck V) (us : List Url)
      → vs.value m.endpoint_healthy (route ∷ redacted u ∷ []) ≡ 1
      → vs.value
          (active_for_route vs redacted m route us).endpoint_healthy
          (route ∷ redacted u ∷ [])
        ≡ 1
  unfolding active_for_route
  active_for_route-kept m [] e = e
  active_for_route-kept m (v ∷ us) e =
      active_for_route-kept (set_endpoint_healthy vs m route (redacted v) true) us (
        ground (
          arith,
          e,
          vs.value-set m.endpoint_healthy (route ∷ redacted v ∷ []) (route ∷ redacted u ∷ []) 1,
        ))

  active_for_route_lem :
      (m : ActiveHealthCheck V) (us : List Url)
      → Memᴰ u us
      → vs.value
          (active_for_route vs redacted m route us).endpoint_healthy
          (route ∷ redacted u ∷ [])
        ≡ 1
  unfolding active_for_route labels_eq
  active_for_route_lem m [] i = elim i [ ]
  active_for_route_lem m (v ∷ us) (Memᴰ.head e) =
      active_for_route-kept (set_endpoint_healthy vs m route (redacted v) true) us (
        ground (
          arith,
          e,
          eq_refl route,
          eq_refl (redacted u),
          vs.value-set m.endpoint_healthy (route ∷ redacted v ∷ []) (route ∷ redacted u ∷ []) 1,
        ))
  active_for_route_lem m (v ∷ us) (Memᴰ.tail i) =
      active_for_route_lem (set_endpoint_healthy vs m route (redacted v) true) us i

  -- The gauge of a configured endpoint whose redacted text is as particular as its text shows its
  -- health: after any checks from a new tracker, with their results told to the metrics of the
  -- route, it is 1 if the tracker holds the endpoint as healthy and 0 if not.
  pub gauge_shows_health :
      (us : List Url) (s f : ℤ) (t : HealthTracker Url) (m : ActiveHealthCheck V)
      (cs : List (Check Url))
      → new url_string us s f ≡ ok t
      → Memᴰ u us
      → vs.value
          (notices vs redacted
            (active_for_route vs redacted m route us)
            route
            (notify (checks url_string t cs).1)).endpoint_healthy
          (route ∷ redacted u ∷ [])
        ≡ flag (is_healthy url_string (checks url_string t cs).0.health_by_target u)
  gauge_shows_health us s f t m cs e i =
      let there : has url_string (url_string u) t.health_by_target ≡ true =
        (new-Inv url_string us s f t e).tracked (url_string u)
        ∙ (ap (named url_string (url_string u)) (new_order url_string us s f t e)
            ∙ named-Memᴰ url_string us u i) in
      (checks-Shows (active_for_route vs redacted m route us) t cs (
        elim (Option-cases (lookup (url_string u) t.health_by_target)) [
          | inl n ↦ absurd (ground (arith, n, there))
          | inr (h, n) ↦ ground (
            arith,
            n,
            new_healthy url_string us s f t e (url_string u) h n,
            active_for_route_lem m us i,
          )
        ],
        there,
      )).0
