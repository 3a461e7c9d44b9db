-- ===== src/Upstream/HealthTracker/History.antt =====
-- Histories of the health tracker of internal/upstream/health_tracker.go.
use text.Mathlib.TextEquality.{eq_iff}
use text.Mathlib.TextPositions.{eq_refl}
use dev_gate.Common.{
  String, ◌≡◌, refl, ◌∙◌, sym, ap, is_some, Bool, true, false, inl, inr, List, [], ◌∷◌, Option,
  none, some, arith, ℤ, pos, lez, ok, lookup, lookup-insert, All, select, Option-cases,
}
use dev_gate.Upstream.Health.{
  EndpointHealth, IsValid, record_success, record_failure, record_success-IsValid,
  record_failure-IsValid,
}
use dev_gate.Upstream.HealthTracker.{
  HealthMap, HealthTracker, new, record_success_at, record_failure_at, record_result, healthy_loop,
  healthy_endpoints, replace,
}
use dev_gate.Upstream.HealthTracker.Laws.{
  Inv, has, named, last_named, kept, replace_lem, new-Inv, fresh-IsValid,
}

pub data Op (Url : Type 0) : Type 0 where
  succeed fail : Url → Op Url
  publish : List Url → Op Url

module _ {Url : Type 0} (url_string : Url → String) where
  unfoldable pub step : HealthTracker Url → Op Url → HealthTracker Url
  step t (succeed u) = (record_success_at url_string t u).0
  step t (fail u) = (record_failure_at url_string t u).0
  step t (publish us) = (replace url_string t us).0

  unfoldable pub run : HealthTracker Url → List (Op Url) → HealthTracker Url
  unfolding step
  run t [] = t
  run t (o ∷ os) = run (step t o) os

  record_result-Inv :
      (method : EndpointHealth Url → EndpointHealth Url × Bool)
      → ((h : EndpointHealth Url) → IsValid h → IsValid (method h).0)
      → (t : HealthTracker Url) (u : Url) → Inv url_string t
      → Inv url_string (record_result url_string method t u).0
  unfolding record_result
  record_result-Inv method keeps t u v =
      elim (Option-cases (lookup (url_string u) t.health_by_target)) [
        | inl e ↦ rw (e, record_result) v
        | inr (h, e) ↦
            rw (e, record_result)
              (record {
                success_positive = v.success_positive;
                failure_positive = v.failure_positive;
                tracked = λ k. ground (
                  arith,
                  v.tracked k,
                  e,
                  eq_iff (url_string u) k,
                  lookup-insert (url_string u) k (method h).0 t.health_by_target,
                );
                valid = λ k g q. ground (
                  arith,
                  v.valid k g,
                  v.valid (url_string u) h e,
                  keeps h,
                  lookup-insert (url_string u) k (method h).0 t.health_by_target,
                );
              })
      ]

  kept-IsValid :
      (s f : ℤ) (old : HealthMap Url) (k : String) (o : Option Url) (g : EndpointHealth Url)
      → lez s (pos 0) ≡ false
      → lez f (pos 0) ≡ false
      → ((j : String) (h : EndpointHealth Url) → lookup j old ≡ some h → IsValid h)
      → kept url_string s f old none k o ≡ some g
      → IsValid g
  kept-IsValid s f old k none g ps pf v e = absurd (cc)
  kept-IsValid s f old k (some u) g ps pf v e = elim (Option-cases (lookup k old)) [
    | inl n ↦ ground (arith, fresh-IsValid url_string s f u ps pf)
    | inr (h, n) ↦ ground (arith, v k h n)
  ]

  pub replace-thresholds :
      (t : HealthTracker Url) (us : List Url)
      → ((replace url_string t us).0.success_threshold ≡ t.success_threshold)
        × ((replace url_string t us).0.failure_threshold ≡ t.failure_threshold)
  unfolding replace
  replace-thresholds t us = ground arith

  is_some-kept :
      (s f : ℤ) (old : HealthMap Url) (k : String) (o : Option Url)
      → is_some (kept url_string s f old none k o) ≡ is_some o
  is_some-kept s f old k none = refl
  is_some-kept s f old k (some u) = ground arith

  pub replace-Inv :
      (t : HealthTracker Url) (us : List Url)
      → Inv url_string t
      → Inv url_string (replace url_string t us).0
  replace-Inv t us v =
      let (r, o, l) = replace_lem url_string t us v.success_positive v.failure_positive in
      let (es, ef) = replace-thresholds t us in
      record {
        success_positive = rw es v.success_positive;
        failure_positive = rw ef v.failure_positive;
        tracked = λ k.
            ap is_some (l k)
            ∙ is_some-kept t.success_threshold t.failure_threshold t.health_by_target k
                (last_named url_string k us)
            ∙ ap (named url_string k) (sym o);
        valid = λ k g q.
            kept-IsValid t.success_threshold t.failure_threshold t.health_by_target k
              (last_named url_string k us) g v.success_positive v.failure_positive v.valid
              (sym (l k) ∙ q);
      }

  step-Inv : (t : HealthTracker Url) (o : Op Url) → Inv url_string t → Inv url_string (step t o)
  unfolding step record_success_at record_failure_at
  step-Inv t (succeed u) v = record_result-Inv record_success record_success-IsValid t u v
  step-Inv t (fail u) v = record_result-Inv record_failure record_failure-IsValid t u v
  step-Inv t (publish us) v = replace-Inv t us v

  pub run-Inv :
      (t : HealthTracker Url) (os : List (Op Url)) → Inv url_string t → Inv url_string (run t os)
  unfolding run
  run-Inv t [] v = v
  run-Inv t (o ∷ os) v = run-Inv (step t o) os (step-Inv t o v)

  -- Whether the state at an endpoint's key is healthy.
  abbrev pub is_healthy : HealthMap Url → Url → Bool
  is_healthy m u = elim (lookup (url_string u) m) [ none ↦ false | some h ↦ h.healthy ]

  healthy_loop-select :
      (m : HealthMap Url) (us : List Url)
      → All (λ u. has url_string (url_string u) m ≡ true) us
      → healthy_loop url_string m us ≡ some (select (is_healthy m) us)
  unfolding healthy_loop
  healthy_loop-select m [] a = refl
  healthy_loop-select m (u ∷ us) a = ground (arith, a.0, healthy_loop-select m us a.1)

  named-All :
      (m : HealthMap Url) (us : List Url)
      → ((k : String) → named url_string k us ≡ true → has url_string k m ≡ true)
      → All (λ u. has url_string (url_string u) m ≡ true) us
  named-All m [] h = tt
  named-All m (u ∷ us) h = (
    ground (arith, h (url_string u), eq_refl (url_string u)),
    named-All m us (λ k q. ground (arith, h k, q)),
  )

  pub healthy_endpoints_lem :
      (t : HealthTracker Url)
      → Inv url_string t
      → (us : List Url) × (healthy_endpoints url_string t ≡ some us)
        × (us ≡ select (is_healthy t.health_by_target) t.order)
  unfolding healthy_endpoints
  healthy_endpoints_lem t v = (
    select (is_healthy t.health_by_target) t.order,
    healthy_loop-select t.health_by_target t.order
        (named-All t.health_by_target t.order (λ k q. v.tracked k ∙ q)),
    refl,
  )

  -- After any history of a new tracker, HealthyEndpoints does not panic, and its result is the
  -- current order without the endpoints whose state is unhealthy.
  healthy_endpoints-run :
      (us : List Url) (s f : ℤ) (t : HealthTracker Url) (os : List (Op Url))
      → new url_string us s f ≡ ok t
      → healthy_endpoints url_string (run t os)
        ≡ some (select (is_healthy (run t os).health_by_target) (run t os).order)
  healthy_endpoints-run us s f t os e =
      let (vs, r, q) =
        healthy_endpoints_lem (run t os) (run-Inv t os (new-Inv url_string us s f t e)) in
      r ∙ ap some q
