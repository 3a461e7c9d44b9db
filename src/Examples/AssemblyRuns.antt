-- ===== src/Examples/AssemblyRuns.antt =====
-- The assembly of cmd/devgate on the routes of the router's tests.
use mathlib.Core.List.{Memᴰ}
use dev_gate.Common.{
  ◌≡◌, refl, ℕ, suc, ◌<◌, String, [], Option, none, some, Bool, arith, pos, Text, codes, err, ok,
  text_eq, All,
}
use dev_gate.Router.Std.{Url}
use dev_gate.Router.Construction as Construction
use dev_gate.Router.Construction.{new_loop, names_of, any_conflict, existing_routes, conflicts}
use dev_gate.Router.Validation.Upstreams.{
  validate_upstream, check_dns, check_active, check_passive, check_endpoints,
}
use dev_gate.Router.Validation.Actions.{validate_action, check_upstream_action}
use dev_gate.Router.Validation.{
  validate, check_paths, check_methods, check_hosts, check_error_responses, check_header_matches,
}
use dev_gate.Config.Conversion.{
  routes_from_config, route_from_config, upstream_from_config, pool_from_config,
  discovery_from_config, dns_source, load_balancing_from_config,
}
use dev_gate.Middleware.ErrorResponse
use dev_gate.Metrics.Prometheus.{Labels}
use dev_gate.Upstream.LeastRequests.{Release}
use dev_gate.Upstream.Picker.{ReplaceablePicker}
use dev_gate.Command.Picking.{Picker, pickers}
use dev_gate.Command.Responder.{global_error_responder_from_config, global_responses}
use dev_gate.Command.Runtime.{NotGrpc}
use dev_gate.Command.Process.{Format, Level, Started, new_logger, run}
use dev_gate.Command.Process.Reached.{IsServable, run_reaches_serve}
use dev_gate.Examples.ConfigRuns.{converted, plain, loaded, load-plain, users_converted}
use dev_gate.Examples.MetricsRuns.{registries, vectors}
use dev_gate.Upstream.LeastRequests.{Endpoint}
use dev_gate.Command.Assembly.{
  Assembled, assemble, grpc_unsupported, new_handler, endpoint_count, new_route_dns_watcher,
}
use dev_gate.Command.Accepted.{IsHandled, Handles, new-assemble}
use dev_gate.Examples.Texts.{ascii}
use dev_gate.Examples.RouterRuns.{routes, routes_accepted, users, users_service}

abbrev one_text : Url → String
one_text u = "http://users"

abbrev blank : ℕ → Endpoint Url
blank a = record { target = record { scheme = []; host = [] }; active_requests = 0 }

-- A source of random numbers that always draws 0.
abbrev zero_drawn : ℕ → ℕ → ℕ × ℕ
zero_drawn s n = (s, 0)

zero_below : (s n : ℕ) → (zero_drawn s (suc n)).1 < suc n
zero_below s n = omega (arith)

abbrev three_pickers : ReplaceablePicker Url (Option Release) (Picker ℕ)
three_pickers = pickers one_text zero_drawn zero_below

new-assemble_example :
    IsHandled
      (λ (a : Assembled ℕ). Handles one_text three_pickers 7 users a.handler)
      users
      (assemble one_text 0 blank three_pickers 7 8 ascii (pos 5) (pos 30) users)
new-assemble_example =
    new-assemble ascii one_text 0 blank three_pickers 7 8 (pos 5) (pos 30) routes routes users refl
      refl routes_accepted (Memᴰ.head refl)

no_grpc : All NotGrpc routes
unfolding text_eq
no_grpc = (refl, (refl, tt))

-- No certificate is named.
abbrev no_pair : Text → Text → Option Bool
no_pair cert_file key_file = none

converted_accepted : Construction.new ascii converted ≡ ok converted
unfolding Construction.new new_loop validate validate_action check_upstream_action validate_upstream
    check_dns check_active check_passive check_endpoints check_paths check_methods check_hosts
    check_error_responses check_header_matches names_of any_conflict existing_routes conflicts
    routes_from_config route_from_config upstream_from_config pool_from_config discovery_from_config
    dns_source load_balancing_from_config text_eq
converted_accepted = refl

http_only : All NotGrpc converted
unfolding text_eq routes_from_config route_from_config upstream_from_config pool_from_config
    discovery_from_config dns_source load_balancing_from_config
http_only = (refl, tt)

none_global : global_error_responder_from_config ascii [] ≡ ok []
unfolding global_error_responder_from_config global_responses ErrorResponse.new
none_global = refl

run_reaches_serve_example :
    ((l : Format × Level) × (new_logger loaded.log_format loaded.log_level ≡ ok l))
    × ((x : Started Bool (Labels → ℕ) ℕ) × (run ascii one_text 0 blank three_pickers 7 8 no_pair
            registries vectors loaded
          ≡ ok x)
        × IsServable ascii converted x)
run_reaches_serve_example =
    run_reaches_serve ascii one_text 0 blank three_pickers 7 8 no_pair registries vectors plain
      loaded converted converted [] load-plain (λ e. absurd (ground (arith, e))) users_converted
      none_global converted_accepted http_only

grpc_is_refused :
    new_handler one_text 0 blank three_pickers 7 8
      (pos 5)
      (pos 30)
      (record users { protocol = codes "grpc" })
    ≡ err grpc_unsupported
unfolding new_handler text_eq
grpc_is_refused = refl

two_names :
    new_route_dns_watcher (record users_service {
      dns_discovery = some (record { refresh_interval = pos 30; lookup_timeout = pos 5 });
      endpoints = [];
    })
    ≡ err endpoint_count
unfolding new_route_dns_watcher
two_names = refl
