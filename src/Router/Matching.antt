-- ===== src/Router/Matching.antt =====
-- The matching of internal/router/router.go.
use dev_gate.Common.{
  ℕ, Bool, true, false, not, ◌&&◌, ◌||◌, List, [], ◌∷◌, ◌++◌, Option, none, some, Text, codes,
  is_empty, text_eq, has_prefix, contains, if◌then◌else◌, ltb, ltz, length,
}
use dev_gate.Router.Std.{Std}
use dev_gate.Router.Route.{Route, HeaderMatch}

pub record Request : Type 0 where
  pub method : Text
  pub host : Text
  pub path : Text
  pub headers : List (Text × List Text)

-- `route.PathExact != ""`
abbrev pub is_exact : Route → Bool
is_exact r = not (is_empty r.path_exact)

-- routeMatchesPath
unfoldable pub route_matches_path : Route → Text → Bool
unfolding text_eq has_prefix
route_matches_path r path =
    if is_exact r
    then text_eq path r.path_exact
    else text_eq r.path_prefix (codes "/")
      || text_eq path r.path_prefix
      || has_prefix path (r.path_prefix ++ codes "/")

-- routeMatchesMethod and routeMatchesHost are the same loop over the configured texts.
unfoldable pub matches_any : List Text → Text → Bool
unfolding contains
matches_any [] t = true
matches_any (s ∷ ss) t = contains (s ∷ ss) t

-- A header matches by its one value.
unfoldable pub one_value : List Text → Text → Bool
unfolding text_eq
one_value (v ∷ []) exact = text_eq v exact
one_value _ exact = false

-- candidatePathLength
unfoldable pub path_length : Route → ℕ
path_length r = if is_exact r then length r.path_exact else length r.path_prefix

-- `a != b`
abbrev differ : Bool → Bool → Bool
differ true b = not b
differ false b = b

-- The `switch` of Match against the best match so far.
unfoldable pub is_better : Route → Route → Bool
unfolding path_length
is_better candidate best =
    if ltb (path_length best) (path_length candidate)
    then true
    else if ltb (path_length candidate) (path_length best)
    then false
    else if differ (is_exact candidate) (is_exact best)
    then is_exact candidate
    else ltz best.priority candidate.priority

module _ (std : Std) where
  -- routeMatchesHeaders
  unfoldable pub headers_match : List HeaderMatch → List (Text × List Text) → Bool
  headers_match [] headers = true
  headers_match (m ∷ ms) headers =
      one_value (std.values headers m.name) m.exact && headers_match ms headers

  unfoldable pub normalize_host : Text → Text
  normalize_host host = elim (std.split_host_port (std.to_lower host)) [
    | none ↦ std.to_lower host
    | some hostname ↦ hostname
  ]

  -- The four tests of a candidate in Match; `host` is normalized.
  unfoldable pub route_matches : Route → Text → Text → Text → List (Text × List Text) → Bool
  route_matches r method host path headers =
      route_matches_path r path
      && matches_any r.methods method
      && matches_any r.hosts host
      && headers_match r.header_matches headers

  -- The loop of Match. No best match yet, `none`, is the length -1, which every candidate exceeds.
  unfoldable pub match_loop : Request → Option Route → List Route → Option Route
  match_loop q best [] = best
  match_loop q best (r ∷ rs) =
      match_loop q
        (if route_matches r q.method q.host q.path q.headers
          then elim best [ none ↦ some r | some b ↦ some (if is_better r b then r else b) ]
          else best)
        rs

  unfoldable pub match_route : List Route → Request → Option Route
  match_route routes q =
      if not (has_prefix q.path (codes "/"))
      then none
      else match_loop (record q { host = normalize_host q.host }) none routes
