-- ===== src/Router/Allowed.antt =====
-- AllowedMethods of internal/router/router.go. `sort` is slices.Sort on texts.
use dev_gate.Common.{
  ◌≡◌, ◌⊎◌, refl, ap, ◌∙◌, sym, Bool, true, false, not, ◌&&◌, ◌||◌, List, [], ◌∷◌, ◌++◌, Option,
  none, some, arith, Text, codes, text_eq, text_eq_iff, has_prefix, contains, if◌then◌else◌,
  is_some, Option-cases, inl, inr,
}
use dev_gate.Router.Std.{Std}
use dev_gate.Router.Route.{Route}
use dev_gate.Router.Matching.{
  Request, route_matches_path, matches_any, headers_match, normalize_host, route_matches,
  match_loop, match_route,
}

-- slices.Compact
unfoldable pub compact : List Text → List Text
compact [] = []
compact (s ∷ ss) =
    let rest = compact ss in
    elim rest [ [] ↦ s ∷ [] | t ∷ ts ↦ if text_eq s t then t ∷ ts else s ∷ t ∷ ts ]

abbrev no_methods : List Text → Bool
no_methods [] = true
no_methods (m ∷ ms) = false

list_cases : (ss : List Text) → (ss ≡ []) ⊎ ((u : Text) × (us : List Text) × (ss ≡ u ∷ us))
list_cases [] = inl refl
list_cases (u ∷ us) = inr (u, us, refl)

configured : (ms : List Text) (t : Text) → no_methods ms ≡ false → matches_any ms t ≡ contains ms t
unfolding matches_any
configured [] t e = absurd (cc)
configured (m ∷ ms) t e = refl

unlimited : (ms : List Text) (t : Text) → no_methods ms ≡ true → matches_any ms t ≡ true
unfolding matches_any
unlimited [] t e = refl
unlimited (m ∷ ms) t e = absurd (cc)

module _ (std : Std) where
  -- The loop; `none` is its return of nil.
  unfoldable pub allowed_loop :
      Text → Text → List (Text × List Text) → List Text → List Route → Option (List Text)
  allowed_loop host path headers allowed [] = some allowed
  allowed_loop host path headers allowed (r ∷ rs) =
      let rest = allowed_loop host path headers (allowed ++ r.methods) rs in
      let skipped = allowed_loop host path headers allowed rs in
      if route_matches_path r path
        && matches_any r.hosts host
        && headers_match std r.header_matches headers
      then (if no_methods r.methods then none else rest)
      else skipped

  unfoldable pub allowed_methods :
      (List Text → List Text)
      → List Route
      → Text
      → Text
      → List (Text × List Text)
      → Option (List Text)
  allowed_methods sort routes host path headers =
      if not (has_prefix path (codes "/"))
      then none
      else elim (allowed_loop (normalize_host std host) path headers [] routes) [
        | none ↦ none
        | some allowed ↦ some (compact (sort allowed))
      ]

  -- Some route passes the four tests of Match.
  unfoldable pub any_matches : Request → List Route → Bool
  any_matches q [] = false
  any_matches q (r ∷ rs) = route_matches std r q.method q.host q.path q.headers || any_matches q rs

  match_loop_some :
      (q : Request) (best : Option Route) (rs : List Route)
      → is_some (match_loop std q best rs) ≡ (is_some best || any_matches q rs)
  unfolding match_loop any_matches
  match_loop_some q none [] = refl
  match_loop_some q (some b) [] = refl
  match_loop_some q none (r ∷ rs) =
      ground (arith, match_loop_some q none rs, match_loop_some q (some r) rs)
  match_loop_some q (some b) (r ∷ rs) =
      ground (arith, match_loop_some q (some b) rs, match_loop_some q (some r) rs)

  contains-append :
      (ss ts : List Text) (t : Text) → contains (ss ++ ts) t ≡ (contains ss t || contains ts t)
  unfolding contains
  contains-append [] ts t = refl
  contains-append (s ∷ ss) ts t = ground (arith, contains-append ss ts t)

  allowed_loop_lem :
      (q : Request) (allowed : List Text) (rs : List Route) (ms : List Text)
      → allowed_loop q.host q.path q.headers allowed rs ≡ some ms
      → contains ms q.method ≡ (contains allowed q.method || any_matches q rs)
  unfolding allowed_loop any_matches route_matches
  allowed_loop_lem q allowed [] ms e = ground (arith, e)
  allowed_loop_lem q allowed (r ∷ rs) ms e = ground (
    arith,
    e,
    allowed_loop_lem q (allowed ++ r.methods) rs ms,
    allowed_loop_lem q allowed rs ms,
    contains-append allowed r.methods q.method,
    configured r.methods q.method,
  )

  compact_cases :
      (ss : List Text) → (compact ss ≡ []) ⊎ ((u : Text) × (us : List Text) × (compact ss ≡ u ∷ us))
  compact_cases ss = list_cases (compact ss)

  contains-compact : (ss : List Text) (t : Text) → contains (compact ss) t ≡ contains ss t
  unfolding compact contains
  contains-compact [] t = refl
  contains-compact (s ∷ ss) t =
      let same = contains-compact ss t in
      elim (compact_cases ss) [
        | inl e ↦ rw (e, compact) (ground (arith, same, e))
        | inr (u, us, e) ↦ rw (e, compact) (ground (arith, same, e, text_eq_iff s u))
      ]

  -- For a path that begins with a slash, when AllowedMethods returns methods, a method is one of them
  -- exactly when Match finds a route for the request with that method.
  pub allowed_methods_lem :
      (sort : List Text → List Text) (routes : List Route) (q : Request) (ms : List Text)
      → ((ss : List Text) (t : Text) → contains (sort ss) t ≡ contains ss t)
      → has_prefix q.path (codes "/") ≡ true
      → allowed_methods sort routes q.host q.path q.headers ≡ some ms
      → contains ms q.method ≡ is_some (match_route std routes q)
  unfolding allowed_methods match_route contains
  allowed_methods_lem sort routes q ms sorted root e =
      let p : Request = record q { host = normalize_host std q.host } in
      elim (Option-cases (allowed_loop p.host q.path q.headers [] routes)) [
        | inl f ↦ absurd (ground (arith, e, f, root))
        | inr (found, f) ↦
            let one = allowed_loop_lem p [] routes found f in
            let listed : compact (sort found) ≡ ms = ground (arith, e, f, root) in
            let searched : match_route std routes q ≡ match_loop std p none routes =
              ground (arith, root) in
            ap (λ ss. contains ss q.method) (sym listed)
            ∙ contains-compact (sort found) q.method
            ∙ sorted found q.method
            ∙ one
            ∙ sym (match_loop_some p none routes)
            ∙ ap is_some (sym searched)
      ]

  allowed_loop_nil :
      (q : Request) (allowed : List Text) (rs : List Route)
      → allowed_loop q.host q.path q.headers allowed rs ≡ none
      → any_matches q rs ≡ true
  unfolding allowed_loop any_matches route_matches
  allowed_loop_nil q allowed [] e = absurd (ground (arith, e))
  allowed_loop_nil q allowed (r ∷ rs) e = ground (
    arith,
    e,
    allowed_loop_nil q (allowed ++ r.methods) rs,
    allowed_loop_nil q allowed rs,
    unlimited r.methods q.method,
  )

  -- For a path that begins with a slash, AllowedMethods returns nil only where Match finds a route.
  pub allowed_methods_nil :
      (sort : List Text → List Text) (routes : List Route) (q : Request)
      → has_prefix q.path (codes "/") ≡ true
      → allowed_methods sort routes q.host q.path q.headers ≡ none
      → is_some (match_route std routes q) ≡ true
  unfolding allowed_methods match_route
  allowed_methods_nil sort routes q root e =
      let p : Request = record q { host = normalize_host std q.host } in
      elim (Option-cases (allowed_loop p.host q.path q.headers [] routes)) [
        | inr (found, f) ↦ absurd (ground (arith, e, f, root))
        | inl f ↦
            let searched : match_route std routes q ≡ match_loop std p none routes =
              ground (arith, root) in
            ap is_some searched ∙ (match_loop_some p none routes ∙ allowed_loop_nil p [] routes f)
      ]
