-- ===== src/Upstream/HealthTracker/Laws.antt =====
-- What the health tracker of internal/upstream/health_tracker.go keeps through every history.
use text.Mathlib.Text.{◌==◌ as str_eq}
use text.Mathlib.TextEquality.{eq_iff}
use dev_gate.Common.{
  String, ◌≡◌, refl, Bool, true, false, inl, inr, List, [], ◌∷◌, Option, none, some, arith,
  if◌then◌else◌, is_some, ℤ, pos, pos_part, lez, pos_of_lez, ◌||◌, ok, lookup, insert,
  lookup-insert, Option-cases, Bool-cases,
}
use dev_gate.Upstream.Health.{EndpointHealth, IsValid}
use dev_gate.Upstream.HealthTracker.{HealthMap, HealthTracker, fill, new, replace_loop, replace}

-- The state of an endpoint that was never recorded, for positive thresholds.
abbrev pub fresh : {Url : Type 0} → ℤ → ℤ → Url → EndpointHealth Url
fresh s f u = record {
  target = u;
  healthy = true;
  consecutive_successes = 0;
  success_threshold = pos_part s;
  consecutive_failures = 0;
  failure_threshold = pos_part f;
}

module _ {Url : Type 0} (url_string : Url → String) where
  -- The last endpoint of a list that is written as a text.
  abbrev pub last_named : String → List Url → Option Url
  last_named k [] = none
  last_named k (u ∷ us) = elim (last_named k us) [
    | some w ↦ some w
    | none ↦ if str_eq (url_string u) k then some u else none
  ]

  -- What Replace is to hold at a key.
  abbrev pub kept :
      ℤ
      → ℤ
      → HealthMap Url
      → Option (EndpointHealth Url)
      → String
      → Option Url
      → Option (EndpointHealth Url)
  kept s f old other k none = other
  kept s f old other k (some u) = elim (lookup k old) [
    | some h ↦ some (record h { target = u })
    | none ↦ some (fresh s f u)
  ]

  replace_loop-kept :
      (s f : ℤ) (old snapshot : HealthMap Url) (us : List Url)
      → lez s (pos 0) ≡ false
      → lez f (pos 0) ≡ false
      → (m : HealthMap Url) × ((replace_loop url_string s f old snapshot us).1 ≡ ok m)
        × ((k : String) → lookup k m ≡ kept s f old (lookup k snapshot) k (last_named k us))
  unfolding replace_loop
  replace_loop-kept s f old snapshot [] ps pf = (snapshot, refl, λ k. refl)
  replace_loop-kept s f old snapshot (u ∷ us) ps pf =
      elim (Option-cases (lookup (url_string u) old)) [
        | inl e ↦
            let snap = insert (url_string u) (fresh s f u) snapshot in
            let (m, r, l) = replace_loop-kept s f old snap us ps pf in
            (
              m,
              ground arith,
              λ k. ground (
                arith,
                l k,
                lookup-insert (url_string u) k (fresh s f u) snapshot,
                eq_iff (url_string u) k,
              ),
            )
        | inr (h, e) ↦
            let h' : EndpointHealth Url = record h { target = u } in
            let snap = insert (url_string u) h' snapshot in
            let older = insert (url_string u) h' old in
            let (m, r, l) = replace_loop-kept s f older snap us ps pf in
            (
              m,
              ground arith,
              λ k. ground (
                arith,
                l k,
                lookup-insert (url_string u) k h' snapshot,
                lookup-insert (url_string u) k h' old,
                eq_iff (url_string u) k,
              ),
            )
      ]

  -- After Replace, which never fails with positive thresholds, the order is the list given, and the
  -- map holds just its keys: a state that was tracked before is kept, with its target rewritten to
  -- the last endpoint of that key, and any other one is fresh.
  pub replace_lem :
      (t : HealthTracker Url) (us : List Url)
      → lez t.success_threshold (pos 0) ≡ false
      → lez t.failure_threshold (pos 0) ≡ false
      → ((replace url_string t us).1 ≡ none)
        × ((replace url_string t us).0.order ≡ us)
        × ((k : String)
            → lookup k (replace url_string t us).0.health_by_target
              ≡ kept t.success_threshold t.failure_threshold t.health_by_target none k
                  (last_named k us))
  unfolding replace lookup
  replace_lem t us ps pf =
      let (m, r, l) =
        replace_loop-kept t.success_threshold t.failure_threshold t.health_by_target [] us ps pf in
      (ground (arith, r), ground (arith, r), λ k. ground (arith, r, l k))

  abbrev pub has : String → HealthMap Url → Bool
  has k m = is_some (lookup k m)

  abbrev pub named : String → List Url → Bool
  named k us = is_some (last_named k us)

  -- The map tracks exactly the endpoints of the order, each with counters within its thresholds.
  pub record Inv (t : HealthTracker Url) : Type 0 where
    pub success_positive : lez t.success_threshold (pos 0) ≡ false
    pub failure_positive : lez t.failure_threshold (pos 0) ≡ false
    pub tracked : (k : String) → has k t.health_by_target ≡ named k t.order
    pub valid :
        (k : String) (h : EndpointHealth Url) → lookup k t.health_by_target ≡ some h → IsValid h

  pub fresh-IsValid :
      (s f : ℤ) (u : Url) → lez s (pos 0) ≡ false → lez f (pos 0) ≡ false → IsValid (fresh s f u)
  fresh-IsValid s f u ps pf = ground (arith, pos_of_lez s, pos_of_lez f)

  fill_lem :
      (s f : ℤ) (m : HealthMap Url) (us : List Url)
      → lez s (pos 0) ≡ false
      → lez f (pos 0) ≡ false
      → ((k : String) (h : EndpointHealth Url) → lookup k m ≡ some h → IsValid h)
      → (m' : HealthMap Url) × (fill url_string s f m us ≡ ok m')
        × ((k : String) → has k m' ≡ has k m || named k us)
        × ((k : String) (h : EndpointHealth Url) → lookup k m' ≡ some h → IsValid h)
  unfolding fill
  fill_lem s f m [] ps pf v = (m, refl, λ k. ground arith, v)
  fill_lem s f m (u ∷ us) ps pf v = elim (Option-cases (lookup (url_string u) m)) [
    | inr (h, e) ↦
        let (m', r, l, w) = fill_lem s f m us ps pf v in
        (m', ground arith, λ k. ground (arith, l k, eq_iff (url_string u) k), w)
    | inl e ↦
        let m₁ = insert (url_string u) (fresh s f u) m in
        let (m', r, l, w) = fill_lem s f m₁ us ps pf (λ k h q.
          ground
            (arith, v k h, fresh-IsValid s f u, lookup-insert (url_string u) k (fresh s f u) m)) in
        (
          m',
          ground arith,
          λ k.
              ground (
                arith,
                l k,
                eq_iff (url_string u) k,
                lookup-insert (url_string u) k (fresh s f u) m,
              ),
          w,
        )
  ]

  -- With positive thresholds, NewHealthTracker fails only without an endpoint.
  pub new-ok :
      (u : Url) (us : List Url) (s f : ℤ)
      → lez s (pos 0) ≡ false
      → lez f (pos 0) ≡ false
      → (t : HealthTracker Url) × (new url_string (u ∷ us) s f ≡ ok t)
  unfolding new lookup
  new-ok u us s f ps pf =
      let (m, r, l, w) = fill_lem s f [] (u ∷ us) ps pf (λ k h q. absurd (cc)) in
      (
        record {
          health_by_target = m;
          order = u ∷ us;
          success_threshold = s;
          failure_threshold = f;
        },
        ground (arith, ps, pf, r),
      )

  pub new-Inv :
      (us : List Url) (s f : ℤ) (t : HealthTracker Url) → new url_string us s f ≡ ok t → Inv t
  unfolding new lookup
  new-Inv [] s f t e = absurd (cc)
  new-Inv (u ∷ us) s f t e = elim (Bool-cases (lez s (pos 0))) [
    | inl bad ↦ absurd (ground arith)
    | inr ps ↦ elim (Bool-cases (lez f (pos 0))) [
      | inl bad ↦ absurd (ground arith)
      | inr pf ↦
          let (m, r, l, w) = fill_lem s f [] (u ∷ us) ps pf (λ k h q. absurd (cc)) in
          let e' : t ≡ record {
            health_by_target = m;
            order = u ∷ us;
            success_threshold = s;
            failure_threshold = f;
          } =
            ground (arith, r) in
          rw e' (record { success_positive = ps; failure_positive = pf; tracked = l; valid = w })
    ]
  ]
