-- ===== src/Router/Selection.antt =====
-- What Match of internal/router/router.go selects.
use dev_gate.Common.{
  ◌≡◌, refl, Bool, true, false, ◌&&◌, inl, inr, ◌⊎◌, List, [], ◌∷◌, none, some, arith, codes,
  has_prefix, All, Bool-cases,
}
use mathlib.Core.List.{Memᴰ}
use dev_gate.Router.Std.{Std}
use dev_gate.Router.Route.{Route}
use dev_gate.Router.Matching.{
  Request, route_matches, is_better, match_loop, match_route, normalize_host,
}

-- The order of `is_better` is that of the ranks: the first is not better than the second and the
-- second not better than the third.
is_better_trans :
    (a b c : Route) → is_better a b ≡ false → is_better b c ≡ false → is_better a c ≡ false
unfolding is_better
is_better_trans a b c h k = ground arith

is_better_asym : (a b : Route) → is_better a b ≡ true → is_better b a ≡ false
unfolding is_better
is_better_asym a b h = ground arith

is_better_irrefl : (a : Route) → is_better a a ≡ false
unfolding is_better
is_better_irrefl a = ground arith

only_if : {a : Bool} (b : Bool) → a ≡ false → (a && b) ≡ false
only_if b e = rw e

never : (a : Bool) {b : Bool} → b ≡ false → (a && b) ≡ false
never a e = ground arith

module _ (std : Std) (q : Request) where
  -- The four tests of Match on this request, whose host is normalized.
  abbrev pub candidate : Route → Bool
  candidate r = route_matches std r q.method q.host q.path q.headers

  -- No candidate of a list is better than a route.
  abbrev pub NoneBetter : Route → List Route → Type 0
  NoneBetter x = All (λ r. (candidate r && is_better r x) ≡ false)

  pub record Selected (x : Route) (rs : List Route) : Type 0 where
    pub present : Memᴰ x rs
    pub matching : candidate x ≡ true
    pub best : NoneBetter x rs

  -- The loop with a best match so far.
  pub record Improved (b : Route) (rs : List Route) : Type 0 where
    pub result : Route
    pub returned : match_loop std q (some b) rs ≡ some result
    pub not_worse : is_better b result ≡ false
    pub none_better : NoneBetter result rs
    pub origin : (result ≡ b) ⊎ (Memᴰ result rs × (candidate result ≡ true))

  match_loop-Improved : (b : Route) (rs : List Route) → Improved b rs
  unfolding match_loop
  match_loop-Improved b [] = record {
    result = b;
    returned = refl;
    not_worse = is_better_irrefl b;
    none_better = tt;
    origin = inl refl;
  }
  match_loop-Improved b (r ∷ rs) = elim (Bool-cases (candidate r)) [
    | inr miss ↦
        let v = match_loop-Improved b rs in
        record {
          result = v.result;
          returned = rw miss v.returned;
          not_worse = v.not_worse;
          none_better = (only_if (is_better r v.result) miss, v.none_better);
          origin = elim v.origin [ inl e ↦ inl e | inr (m, c) ↦ inr (Memᴰ.tail m, c) ];
        }
    | inl hit ↦ elim (Bool-cases (is_better r b)) [
      | inr old ↦
          let v = match_loop-Improved b rs in
          record {
            result = v.result;
            returned = rw (hit, old) v.returned;
            not_worse = v.not_worse;
            none_better =
                (never (candidate r) (is_better_trans r b v.result old v.not_worse), v.none_better);
            origin = elim v.origin [ inl e ↦ inl e | inr (m, c) ↦ inr (Memᴰ.tail m, c) ];
          }
      | inl new ↦
          let v = match_loop-Improved r rs in
          record {
            result = v.result;
            returned = rw (hit, new) v.returned;
            not_worse = is_better_trans b r v.result (is_better_asym r b new) v.not_worse;
            none_better = (never (candidate r) v.not_worse, v.none_better);
            origin = elim v.origin [
              | inl e ↦ inr (Memᴰ.head e, rw e hit)
              | inr (m, c) ↦ inr (Memᴰ.tail m, c)
            ];
          }
    ]
  ]

  pub match_loop-cases :
      (rs : List Route)
      → ((match_loop std q none rs ≡ none) × All (λ r. candidate r ≡ false) rs)
        ⊎ ((x : Route) × (match_loop std q none rs ≡ some x) × Selected x rs)
  unfolding match_loop
  match_loop-cases [] = inl (refl, tt)
  match_loop-cases (r ∷ rs) = elim (Bool-cases (candidate r)) [
    | inr miss ↦ elim (match_loop-cases rs) [
      | inl (e, a) ↦ inl (rw miss e, (miss, a))
      | inr (x, e, s) ↦ inr (
        x,
        rw miss e,
        record {
          present = Memᴰ.tail s.present;
          matching = s.matching;
          best = (only_if (is_better r x) miss, s.best);
        },
      )
    ]
    | inl hit ↦
        let v = match_loop-Improved r rs in
        inr (
          v.result,
          rw hit v.returned,
          record {
            present = elim v.origin [ inl e ↦ Memᴰ.head e | inr (m, c) ↦ Memᴰ.tail m ];
            matching = elim v.origin [ inl e ↦ rw e hit | inr (m, c) ↦ c ];
            best = (never (candidate r) v.not_worse, v.none_better);
          },
        )
  ]

-- For a path that begins with a slash, Match returns no route exactly when the tests of every route
-- fail, and otherwise a configured route whose tests pass and than which no other such route is
-- better: in the length of its path, then in being exact, then in priority.
pub match_route-Selected :
    (std : Std) (routes : List Route) (q : Request)
    → has_prefix q.path (codes "/") ≡ true
    → let p : Request = record q { host = normalize_host std q.host } in
      ((match_route std routes q ≡ none) × All (λ r. candidate std p r ≡ false) routes)
      ⊎ ((x : Route) × (match_route std routes q ≡ some x) × Selected std p x routes)
unfolding match_route
match_route-Selected std routes q root =
    rw root (match_loop-cases std (record q { host = normalize_host std q.host }) routes)
