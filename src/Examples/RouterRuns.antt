-- ===== src/Examples/RouterRuns.antt =====
-- internal/router on two routes for one path.
use dev_gate.Router.Validation.Headers.{validate_header_match, is_reserved_request_header}
use dev_gate.Router.Validation.Actions.{validate_action}
use dev_gate.Router.Validation.{
  validate, check_paths, check_methods, check_hosts, check_error_responses, check_header_matches,
}
use mathlib.Core.List.{Permᴰ}
use dev_gate.Common.{
  All, ◌⊎◌, has_prefix, ◌≡◌, refl, false, List, [], ◌∷◌, none, some, codes, ok, pos, Text, contains,
  is_some,
}
use dev_gate.Router.Route.{Route, Upstream, round_robin}
use dev_gate.Router.Matching.{
  Request, match_route, match_loop, route_matches, route_matches_path, matches_any, normalize_host,
  headers_match, one_value, is_better,
}
use dev_gate.Router.Construction.{
  new, new_loop, names_of, any_conflict, existing_routes, key_eq, path_match_key, conflicts,
}
use dev_gate.Router.Selection.{match_route-Selected, candidate, Selected}
use dev_gate.Router.Determinism.{match_route-perm}
use dev_gate.Router.Allowed.{allowed_methods, allowed_loop, compact, allowed_methods_lem}
use dev_gate.Examples.Texts.{ascii, ascii_ignores_case, values_at}

abbrev pub users_service : Upstream
users_service = record {
  dns_discovery = none;
  load_balancing = round_robin;
  endpoints = record { scheme = codes "http"; host = codes "users" } ∷ [];
  active_health_check = none;
  passive_health_check = none;
}

abbrev pub users : Route
users = record {
  name = codes "users";
  protocol = codes "http";
  path_prefix = codes "/users";
  path_exact = [];
  header_matches = [];
  methods = codes "GET" ∷ [];
  hosts = codes "api.example" ∷ [];
  priority = pos 0;
  upstream = some users_service;
  direct_response = none;
  redirect = none;
  error_responses = [];
  request_headers = none;
  response_headers = none;
  rate_limit = none;
  strip_path_prefix = false;
  request_timeout = pos 0;
  max_request_body_bytes = pos 0;
}

-- The same matchers at another priority and for one header value.
abbrev pub beta_users : Route
beta_users = record users {
  name = codes "beta";
  header_matches = record { name = codes "X-Beta"; exact = codes "yes" } ∷ [];
  priority = pos 5;
}

abbrev pub routes : List Route
routes = users ∷ beta_users ∷ []

abbrev pub beta_request : Request
beta_request = record {
  method = codes "GET";
  host = codes "API.example:80";
  path = codes "/users/42";
  headers = (codes "x-beta", codes "yes" ∷ []) ∷ [];
}

pub routes_accepted : new ascii routes ≡ ok routes
unfolding new new_loop validate validate_action check_paths check_methods check_hosts
    check_error_responses check_header_matches names_of any_conflict existing_routes
    validate_header_match is_reserved_request_header key_eq path_match_key conflicts
routes_accepted = refl

routes_select : match_route ascii routes beta_request ≡ some beta_users
unfolding match_route has_prefix match_loop route_matches route_matches_path matches_any
    normalize_host headers_match one_value values_at is_better
routes_select = refl

match_route-perm_example :
    match_route ascii routes beta_request ≡ match_route ascii (beta_users ∷ users ∷ []) beta_request
match_route-perm_example =
    match_route-perm ascii routes routes (beta_users ∷ users ∷ []) beta_request ascii_ignores_case
      routes_accepted (Permᴰ.swap refl refl)

match_route-Selected_example :
    let p : Request = record beta_request { host = normalize_host ascii beta_request.host } in
    ((match_route ascii routes beta_request ≡ none) × All (λ r. candidate ascii p r ≡ false) routes)
    ⊎ ((x : Route) × (match_route ascii routes beta_request ≡ some x) × Selected ascii p x routes)
match_route-Selected_example =
    match_route-Selected ascii routes beta_request (unfold has_prefix in refl)

-- The methods are in order as they come.
abbrev pub as_they_come : List Text → List Text
as_they_come ss = ss

allowed_once :
    allowed_methods ascii as_they_come routes beta_request.host beta_request.path
      beta_request.headers
    ≡ some (codes "GET" ∷ [])
unfolding allowed_methods allowed_loop compact has_prefix route_matches_path matches_any
    normalize_host headers_match one_value values_at
allowed_once = refl

allowed_methods_lem_example :
    contains (codes "GET" ∷ []) (codes "GET") ≡ is_some (match_route ascii routes beta_request)
allowed_methods_lem_example =
    allowed_methods_lem ascii as_they_come routes beta_request (codes "GET" ∷ []) (λ ss t. refl)
      (unfold has_prefix in refl) allowed_once
