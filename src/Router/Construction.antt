-- ===== src/Router/Construction.antt =====
-- New of internal/router/router.go: names are unique, and no two routes conflict.
use dev_gate.Common.{
  Bool, true, false, not, ◌&&◌, ◌||◌, List, [], ◌∷◌, ◌++◌, Option, none, some, Text, text_eq,
  contains, if◌then◌else◌, select, eqz, Result, err, ok, ◌>>◌, reject, wrap,
}
use dev_gate.Router.Std.{Std}
use dev_gate.Router.Route.{Route, HeaderMatch}
use dev_gate.Router.Matching.{is_exact}
use dev_gate.Router.Validation.{RouteError, validate}

pub record PathMatchKey : Type 0 where
  pub path : Text
  pub exact : Bool

unfoldable pub path_match_key : Route → PathMatchKey
path_match_key r =
    if is_exact r
    then record { path = r.path_exact; exact = true }
    else record { path = r.path_prefix; exact = false }

abbrev bool_eq : Bool → Bool → Bool
bool_eq true b = b
bool_eq false b = not b

unfoldable pub key_eq : PathMatchKey → PathMatchKey → Bool
unfolding text_eq
key_eq a b = text_eq a.path b.path && bool_eq a.exact b.exact

unfoldable pub meets : List Text → List Text → Bool
unfolding contains
meets set [] = false
meets set (t ∷ ts) = contains set t || meets set ts

-- hostSetsOverlap and methodSetsOverlap are the same function.
unfoldable pub sets_overlap : List Text → List Text → Bool
sets_overlap [] existing = true
sets_overlap (c ∷ cs) [] = true
sets_overlap (c ∷ cs) (e ∷ es) = meets (c ∷ cs) (e ∷ es)

module _ (std : Std) where
  -- The map of headerMatchSetsOverlap at a name: the last entry of that name in lower case.
  unfoldable pub exact_at : Text → List HeaderMatch → Option Text
  unfolding text_eq
  exact_at name [] = none
  exact_at name (m ∷ ms) = elim (exact_at name ms) [
    | some exact ↦ some exact
    | none ↦ if text_eq (std.to_lower m.name) name then some m.exact else none
  ]

  unfoldable pub agrees : List HeaderMatch → List HeaderMatch → Bool
  agrees current [] = true
  agrees current (e ∷ es) = elim (exact_at (std.to_lower e.name) current) [
    | none ↦ agrees current es
    | some exact ↦ if not (text_eq exact e.exact) then false else agrees current es
  ]

  unfoldable pub header_match_sets_overlap : List HeaderMatch → List HeaderMatch → Bool
  header_match_sets_overlap [] existing = true
  header_match_sets_overlap (c ∷ cs) [] = true
  header_match_sets_overlap (c ∷ cs) (e ∷ es) = agrees (c ∷ cs) (e ∷ es)

  -- The test of the inner loop of New.
  unfoldable pub conflicts : Route → Route → Bool
  conflicts route existing =
      eqz route.priority existing.priority
      && sets_overlap route.methods existing.methods
      && sets_overlap route.hosts existing.hosts
      && header_match_sets_overlap route.header_matches existing.header_matches

  unfoldable pub any_conflict : Route → List Route → Bool
  any_conflict route [] = false
  any_conflict route (e ∷ es) = conflicts route e || any_conflict route es

pub data NewError : Type 0 where
  no_routes duplicate_name conflicting_matchers : NewError
  invalid_route : RouteError → NewError

-- The loop of New. `earlier` holds the routes accepted so far in order: those of the key are the
-- entry of routesByPathMatcher, and their names are the set of names.
unfoldable pub names_of : List Route → List Text
names_of [] = []
names_of (r ∷ rs) = r.name ∷ names_of rs

unfoldable pub existing_routes : Route → List Route → List Route
existing_routes route earlier =
    select (λ r. key_eq (path_match_key r) (path_match_key route)) earlier

unfoldable pub new_loop : Std → List Route → List Route → Result NewError (Unit {0})
new_loop std earlier [] = ok tt
new_loop std earlier (r ∷ rs) = do
  wrap invalid_route (validate std r)
  reject (contains (names_of earlier) r.name) duplicate_name
  reject (any_conflict std r (existing_routes r earlier)) conflicting_matchers
  new_loop std (earlier ++ r ∷ []) rs

-- The router is its list of routes.
unfoldable pub new : Std → List Route → Result NewError (List Route)
new std [] = err no_routes
new std (r ∷ rs) = elim (new_loop std [] (r ∷ rs)) [ err e ↦ err e | ok u ↦ ok (r ∷ rs) ]
