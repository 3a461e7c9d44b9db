-- ===== src/Upstream/HealthChecker/Recorded.antt =====
-- The result of a target in a round of internal/upstream/health_checker.go.
use text.Mathlib.Text.{◌==◌ as str_eq}
use mathlib.Core.Path.{ap₂}
use dev_gate.Common.{
  ℕ, ◌≡◌, refl, sym, ap, ◌∙◌, subst, ◌⊎◌, inl, inr, true, false, String, List, [], ◌∷◌, ◌++◌,
  Option, none, some, arith, ◌==◌, get_elem?, lookup, Option-cases, Bool-cases,
}
use dev_gate.Upstream.HealthTracker.{HealthTracker, replace}
use dev_gate.Upstream.HealthTracker.Laws.{replace_lem, kept, last_named}
use dev_gate.Upstream.HealthTracker.History.{replace-thresholds}
use dev_gate.Upstream.HealthChecker.{
  Move, Round, World, check_target, moves, step, take, finish, publish,
}
use dev_gate.Upstream.HealthChecker.Counting.{busy-taken, busy-finished, get_elem?-set, tasks}
use dev_gate.Upstream.HealthChecker.Rounds.{
  check_target_local, check_target_other, check_target-thresholds, alone, replaced, all_replaced,
  IsPositive, finished, step-take, step-finish, moves-recorded,
}

-- Two trackers that treat a key alike.
abbrev Alike : {Url : Type 0} → String → HealthTracker Url → HealthTracker Url → Type 0
Alike k t t' =
    (lookup k t.health_by_target ≡ lookup k t'.health_by_target)
    × (t.success_threshold ≡ t'.success_threshold)
    × (t.failure_threshold ≡ t'.failure_threshold)

module _ {Url : Type 0} (url_string : Url → String) where
  kept-Alike :
      (k : String) (t t' : HealthTracker Url) (o : Option Url)
      → Alike k t t'
      → kept url_string t.success_threshold t.failure_threshold t.health_by_target none k o
        ≡ kept url_string t'.success_threshold t'.failure_threshold t'.health_by_target none k o
  kept-Alike k t t' none alike = refl
  kept-Alike k t t' (some u) (e, s, f) = ground (arith, e, s, f)

  replace-Alike :
      (k : String) (t t' : HealthTracker Url) (vs : List Url)
      → IsPositive t'
      → Alike k t t'
      → Alike k (replace url_string t vs).0 (replace url_string t' vs).0
  replace-Alike k t t' vs (ps, pf) (e, s, f) =
      let (_, _, l) = replace_lem url_string t vs (rw s ps) (rw f pf) in
      let (_, _, l') = replace_lem url_string t' vs ps pf in
      let (a, b) = replace-thresholds url_string t vs in
      let (a', b') = replace-thresholds url_string t' vs in
      (
        l k ∙ (kept-Alike k t t' (last_named url_string k vs) (e, s, f) ∙ sym (l' k)),
        a ∙ (s ∙ sym a'),
        b ∙ (f ∙ sym b'),
      )

  replaced-IsPositive :
      (t : HealthTracker Url) (m : Move Url) → IsPositive t → IsPositive (replaced url_string t m)
  replaced-IsPositive t (take place) p = p
  replaced-IsPositive t (finish place) p = p
  replaced-IsPositive t (publish vs) (ps, pf) =
      let (a, b) = replace-thresholds url_string t vs in (rw a ps, rw b pf)

module _ {Url : Type 0} (url_string : Url → String) (world : World) (us : List Url) (i : ℕ)
    (u : Url) where
  -- The target is still to be recorded, on a tracker that treats it as another one.
  abbrev Pending : Round Url → HealthTracker Url → Type 0
  Pending r t =
      (tasks i r ≡ 1) × (get_elem? r.results i ≡ some none) × Alike (url_string u) r.tracker t

  -- The target has the result that its check has on the other tracker.
  abbrev Recorded : Round Url → HealthTracker Url → Type 0
  Recorded r t =
      (tasks i r ≡ 0) × (get_elem? r.results i ≡ some (some (alone url_string world t i u)))

  -- Among the moves is the end of a check of the target, which has the result that it has on the
  -- tracker of which the moves before only replace the endpoints.
  abbrev pub EndedAt : Round Url → HealthTracker Url → List (Move Url) → Round Url → Type 0
  EndedAt r t ms r' =
      (before after : List (Move Url)) × (place : ℕ) × (met : Round Url) × (ms
        ≡ before ++ finish place ∷ after)
      × (moves url_string world us r before ≡ some met)
      × (get_elem? met.workers place ≡ some (some i))
      × Recorded r' (all_replaced url_string t before)

module _ {Url : Type 0} (url_string : Url → String) (world : World) (us : List Url) (i : ℕ)
    (u : Url) (at : get_elem? us i ≡ some u)
    (apart : (i j : ℕ) (u v : Url)
      → get_elem? us i ≡ some u
      → get_elem? us j ≡ some v
      → str_eq (url_string u) (url_string v) ≡ true
      → i ≡ j) where
  other_key :
      (j : ℕ) (v : Url)
      → get_elem? us j ≡ some v
      → (i == j) ≡ false
      → str_eq (url_string v) (url_string u) ≡ false
  other_key j v target e = elim (Bool-cases (str_eq (url_string v) (url_string u))) [
    | inr f ↦ f
    | inl f ↦ absurd (ground (arith, e, apart j i v u target at f))
  ]

  finished_lem :
      (r : Round Url) (t : HealthTracker Url) (place j : ℕ) (v : Url)
      → get_elem? r.workers place ≡ some (some j)
      → get_elem? us j ≡ some v
      → Pending url_string world us i u r t
      → Pending url_string world us i u (finished url_string world us r place j v) t
        ⊎ ((j ≡ i) × Recorded url_string world us i u (finished url_string world us r place j v) t)
  finished_lem r t place j v w target (one, blank, alike) =
      let counted = busy-finished i j place r.workers w in
      let result = (check_target url_string r.tracker v (world j).0 (world j).1).1 in
      let written = get_elem?-set r.results j i (some result) in
      elim (Bool-cases (i == j)) [
        | inl e ↦
            let ij : i ≡ j = ground (arith, e) in
            let uv : u ≡ v = ground (arith, at, target, ij) in
            let own : result ≡ alone url_string world t j v =
              check_target_local url_string r.tracker t v (world j).0 (world j).1 (
                subst
                  (λ x.
                    lookup (url_string x) r.tracker.health_by_target
                    ≡ lookup (url_string x) t.health_by_target)
                  uv alike.0) in
            let moved : alone url_string world t j v ≡ alone url_string world t i u =
              ap₂ (alone url_string world t) (sym ij) (sym uv) in
            inr (
              sym ij,
              (ground (arith, counted, e, one), ground (arith, written, e, blank, own, moved)),
            )
        | inr e ↦
            let (s, f) = check_target-thresholds url_string r.tracker v (world j).0 (world j).1 in
            inl (
              ground (arith, counted, e, one),
              ground (arith, written, e, blank),
              (
                check_target_other url_string r.tracker v (world j).0 (world j).1 (url_string u)
                      (other_key j v target e)
                    ∙ alike.0,
                s ∙ alike.1,
                f ∙ alike.2,
              ),
            )
      ]

  step-Pending :
      (r r' : Round Url) (t : HealthTracker Url) (m : Move Url)
      → step url_string world us r m ≡ some r'
      → IsPositive t
      → Pending url_string world us i u r t
      → Pending url_string world us i u r' (replaced url_string t m)
        ⊎ ((place : ℕ) × (m ≡ finish place)
            × (get_elem? r.workers place ≡ some (some i))
            × Recorded url_string world us i u r' t)
  unfolding step
  step-Pending r r' t (take place) e p h =
      let (j, js, n, w, same) = step-take url_string world us r r' place e in
      inl (
        subst (λ x. Pending url_string world us i u x t) same
          (ground (arith, h.0, n, busy-taken i j place r.workers w), h.1, h.2))
  step-Pending r r' t (finish place) e p h =
      let (j, v, w, k, same) = step-finish url_string world us r r' place e in
      elim (finished_lem r t place j v w k h) [
        | inl h' ↦ inl (subst (λ x. Pending url_string world us i u x t) same h')
        | inr (ji, h') ↦ inr (
          place,
          refl,
          subst (λ x. get_elem? r.workers place ≡ some (some x)) ji w,
          subst (λ x. Recorded url_string world us i u x t) same h',
        )
      ]
  step-Pending r r' t (publish vs) e p h =
      let same : record r { tracker = (replace url_string r.tracker vs).0 } ≡ r' =
        ground (arith, e) in
      inl (
        subst (λ x. Pending url_string world us i u x (replace url_string t vs).0) same
          (h.0, h.1, replace-Alike url_string (url_string u) r.tracker t vs p h.2))

  pub moves-Pending :
      (r r' : Round Url) (t : HealthTracker Url) (ms : List (Move Url))
      → moves url_string world us r ms ≡ some r'
      → IsPositive t
      → Pending url_string world us i u r t
      → Pending url_string world us i u r' (all_replaced url_string t ms)
        ⊎ EndedAt url_string world us i u r t ms r'
  unfolding moves
  moves-Pending r r' t [] e p h =
      let same : r ≡ r' = ground (arith, e) in
      inl (subst (λ x. Pending url_string world us i u x t) same h)
  moves-Pending r r' t (m ∷ ms) e p h = elim (Option-cases (step url_string world us r m)) [
    | inl n ↦ absurd (ground (arith, e, n))
    | inr (s, n) ↦
        let onward : moves url_string world us s ms ≡ some r' = ground (arith, e, n) in
        elim (step-Pending r s t m n p h) [
          | inr (place, same, w, (gone, result)) ↦
              let (gone', kept') = moves-recorded url_string world us s r' ms i onward gone in
              inr ([], ms, place, r, ap (λ x. x ∷ ms) same, refl, w, (gone', kept' ∙ result))
          | inl h' ↦
              elim (moves-Pending s r' (replaced url_string t m) ms onward
                (replaced-IsPositive url_string t m p) h') [
                  | inl h'' ↦ inl h''
                  | inr (before, after, place, met, split_, reached, w, result) ↦ inr (
                    m ∷ before,
                    after,
                    place,
                    met,
                    ap (λ x. m ∷ x) split_,
                    rw (n, moves) reached,
                    w,
                    result,
                  )
                ]
        ]
  ]
