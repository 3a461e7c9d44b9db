-- ===== src/Examples/GatewayRuns.antt =====
-- internal/gateway on two routes for one path.
use dev_gate.Common.{
  ◌≡◌, refl, Option, text_eq, true, List, [], ◌∷◌, some, Text, codes, join, has_prefix,
}
use dev_gate.Router.Matching.{
  Request, match_route, match_loop, route_matches, route_matches_path, matches_any, normalize_host,
  headers_match, one_value, is_better,
}
use dev_gate.Router.Allowed.{allowed_methods, allowed_loop, compact}
use dev_gate.Gateway.Writer.{Call, header, body, new_response_writer, handle, handle_lem, sent}
use dev_gate.Gateway.Handler.{Handling, panicked, Gateway, set_all, serve_http}
use dev_gate.Gateway.Answers.{outcome, outcome_header, cut_off, serve_http_matched}
use dev_gate.Examples.RequestRuns.{Values, headers}
use dev_gate.Examples.Texts.{ascii, values_at}
use dev_gate.Examples.RouterRuns.{routes, beta_users, beta_request, as_they_come}

-- An informational response and the final one, of which the second is lost.
abbrev early_hints : List Call
early_hints = header 103 ∷ header 404 ∷ body 9 ∷ []

handle_lem_example :
    handle new_response_writer early_hints
    ≡ record { below = sent early_hints; status_code = 103; bytes_written = 9; wrote_header = true }
handle_lem_example = handle_lem early_hints

not_found_lost : sent early_hints ≡ header 103 ∷ body 9 ∷ []
not_found_lost = refl

-- A handler that panics in the middle of its response.
abbrev partial : Handling Values
partial = record {
  calls = header 201 ∷ body 7 ∷ [];
  change = λ h. headers.set_header h (codes "Location") (codes "/users/7");
  ending = panicked;
}

abbrev no_header : Values
no_header k = []

abbrev typed : List (Text × Text)
typed = (codes "Content-Type", codes "text/plain") ∷ []

abbrev gateway : Gateway Values
gateway = record {
  routes = routes;
  handlers = λ name. some partial;
  error_response = λ status. header status ∷ body 20 ∷ [];
  configured = λ status. some typed;
  http_error = λ h. h;
}

beta_matched : match_route ascii routes beta_request ≡ some beta_users
unfolding match_route has_prefix match_loop route_matches route_matches_path matches_any
    normalize_host headers_match one_value values_at is_better
beta_matched = refl

serve_http_matched_example :
    let served = serve_http ascii as_they_come headers gateway beta_request no_header in
    (served.route_name ≡ beta_users.name)
    × (served.writer.below ≡ outcome gateway.error_response partial)
    × (served.header ≡ outcome_header headers gateway no_header partial)
    × (served.abort ≡ cut_off partial)
serve_http_matched_example =
    serve_http_matched ascii as_they_come headers gateway beta_request no_header beta_users partial
      beta_matched refl

abbrev put_request : Request
put_request = record beta_request { method = codes "PUT" }

put_refused :
    (serve_http ascii as_they_come headers gateway put_request no_header).header (codes "allow")
    ≡ codes "GET" ∷ []
unfolding serve_http set_all match_route has_prefix match_loop route_matches route_matches_path
    matches_any normalize_host headers_match one_value values_at is_better allowed_methods
    allowed_loop compact join text_eq
put_refused = refl
