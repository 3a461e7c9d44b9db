-- ===== src/Examples/ConfigRuns.antt =====
-- internal/config and cmd/devgate/routes.go on one route, with the default settings.
use dev_gate.Common.{
  ℕ, ◌<◌, ◌≡◌, refl, true, false, List, [], ◌∷◌, none, some, codes, pos, ok, err, text_eq, contains,
}
use dev_gate.Router.Route.{Route}
use dev_gate.Config.Route.{RouteConfig, UpstreamConfig}
use dev_gate.Config.Conversion.{
  load_balancing_from_config, routes_from_config, route_from_config, upstream_from_config,
  pool_from_config, discovery_from_config, dns_source, both_upstreams,
}
use dev_gate.Config.Converted.{AreConverted, routes_from_config_lem}
use dev_gate.Config.Settings.{
  Config, Sources, check_cidrs, check_upstream, defaults, load, load_config_file, validate,
  max_attempts_bad,
}
use dev_gate.Config.Started.{IsReady, load_starts}
use dev_gate.Proxy.CircuitBreaker.{CircuitBreaker}
use dev_gate.Proxy.CircuitBreaker
use dev_gate.Examples.Texts.{ascii}

abbrev dns_pool : UpstreamConfig
dns_pool = record {
  load_balancing = codes "least_requests";
  discovery = some (record {
    static = none;
    dns =
        some (record {
          url = codes "http://users";
          refresh_interval = pos 30;
          lookup_timeout = pos 5;
        });
  });
  active_health_check = none;
  passive_health_check = none;
}

abbrev pub users_config : RouteConfig
users_config = record {
  name = codes "users";
  protocol = codes "http";
  path_prefix = codes "/users";
  path_exact = [];
  header_matches = [];
  methods = codes "GET" ∷ [];
  hosts = [];
  priority = pos 0;
  upstream_url = [];
  upstream = some dns_pool;
  direct_response = none;
  redirect = none;
  error_responses = [];
  rate_limit = none;
  strip_path_prefix = false;
  request_timeout = pos 0;
  max_request_body_bytes = pos 0;
  request_headers = none;
  response_headers = none;
}

abbrev pub converted : List Route
converted = elim (routes_from_config ascii (users_config ∷ [])) [ err e ↦ [] | ok rs ↦ rs ]

pub users_converted : routes_from_config ascii (users_config ∷ []) ≡ ok converted
unfolding routes_from_config route_from_config upstream_from_config pool_from_config
    discovery_from_config dns_source load_balancing_from_config text_eq
users_converted = refl

routes_from_config_lem_example : AreConverted (users_config ∷ []) converted
routes_from_config_lem_example =
    routes_from_config_lem ascii (users_config ∷ []) converted users_converted

both_given :
    routes_from_config ascii (record users_config { upstream_url = codes "http://users" } ∷ [])
    ≡ err both_upstreams
unfolding routes_from_config route_from_config upstream_from_config
both_given = refl

-- No trusted proxies, an empty environment, and a file without routes.
abbrev pub plain : Sources ℕ
plain = record {
  trim_space = λ t. t;
  prefix_is_valid = λ p. true;
  is_masked = λ p. true;
  bits = λ p. pos p;
  parse_environment = λ c. some (record c { trusted_proxy_cidrs = 8 ∷ [] });
  open_file = λ path. some [];
  decode = λ file. some (record { routes = users_config ∷ []; error_responses = [] });
}

abbrev pub loaded : Config ℕ
loaded = record defaults { trusted_proxy_cidrs = 8 ∷ []; routes = users_config ∷ [] }

pub load-plain : load plain ≡ ok loaded
unfolding load validate check_upstream check_cidrs load_config_file contains text_eq
load-plain = refl

load_starts_example :
    IsReady plain loaded
    × (b : CircuitBreaker) × (CircuitBreaker.new (some true) (pos 5) (pos 30000000000) (some false)
        ≡ ok b)
    × (0 < b.failure_threshold)
    × (0 < b.open_timeout)
load_starts_example = load_starts plain true false loaded load-plain

too_many_attempts :
    validate plain (record loaded { upstream_max_attempts = pos 6 }) ≡ err max_attempts_bad
unfolding validate check_upstream contains text_eq
too_many_attempts = refl
