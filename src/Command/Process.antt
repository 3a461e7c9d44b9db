-- ===== src/Command/Process.antt =====
-- cmd/devgate/main.go, logger.go and tls.go. Logging is left out; what the standard library reports
-- to `serve` is an argument.
pub mod Reached
use dev_gate.Common.{
  ℕ, Bool, true, false, not, List, [], ◌∷◌, Option, none, some, String, if◌then◌else◌, is_empty,
  Text, codes, text_eq, ℤ, pos, Result, err, ok, ◌>>=◌, fail_as,
}
use dev_gate.Router.Std.{Std, Url}
use dev_gate.Router.Route.{Route}
use dev_gate.Router.Construction as Construction
use dev_gate.Config.Settings.{Config}
use dev_gate.Config.Conversion.{routes_from_config}
use dev_gate.Proxy.Retry.{RetryTransport}
use dev_gate.Proxy.Retry
use dev_gate.Proxy.Transport.{TransportConfig, new_transport}
use dev_gate.Middleware.ErrorResponse.{Response, Written}
use dev_gate.Middleware.ErrorResponse
use dev_gate.Metrics.Prometheus.{Registries, Vectors}
use dev_gate.Metrics.Registration.{Metrics, new_metrics}
use dev_gate.Upstream.LeastRequests.{Endpoint}
use dev_gate.Upstream.Picker.{ReplaceablePicker}
use dev_gate.Command.Picking.{Picker}
use dev_gate.Command.Responder.{global_error_responder_from_config}
use dev_gate.Command.Assembly.{Assembled}
use dev_gate.Command.Runtime.{assemble_routes}

pub data TlsError : Type 0 where
  not_together pair_not_loaded : TlsError

-- loadServerTLSConfig, over tls.LoadX509KeyPair; a configuration is its certificate.
unfoldable pub load_server_tls_config :
    {C : Type 0} → (Text → Text → Option C) → Text → Text → Result TlsError (Option C)
load_server_tls_config load_pair cert_file key_file =
    let loaded = load_pair cert_file key_file in
    if is_empty cert_file
    then (if is_empty key_file then ok none else err not_together)
    else if is_empty key_file
    then err not_together
    else elim loaded [ none ↦ err pair_not_loaded | some c ↦ ok (some c) ]

pub data Level : Type 0 where
  debug_level info_level warn_level error_level : Level

pub data Format : Type 0 where
  text_format json_format : Format

pub data LoggerError : Type 0 where
  level_unsupported format_unsupported : LoggerError

-- newLogger; a logger is its format and level.
unfoldable pub level_of : Text → Option Level
unfolding text_eq
level_of level =
    if text_eq (codes "debug") level
    then some debug_level
    else if text_eq (codes "info") level
    then some info_level
    else if text_eq (codes "warn") level
    then some warn_level
    else if text_eq (codes "error") level
    then some error_level
    else none

unfoldable pub format_of : Text → Option Format
unfolding text_eq
format_of format =
    if text_eq (codes "text") format
    then some text_format
    else if text_eq (codes "json") format
    then some json_format
    else none

unfoldable pub new_logger : Text → Text → Result LoggerError (Format × Level)
unfolding level_of format_of
new_logger format level = elim (level_of level) [
  | none ↦ err level_unsupported
  | some l ↦ elim (format_of format) [ none ↦ err format_unsupported | some f ↦ ok (f, l) ]
]

pub data RunError : Type 0 where
  tls_failed routes_failed responder_failed router_failed transport_failed retry_failed : RunError
  metrics_panicked runtime_failed : RunError

-- What `serve` is called with.
pub record Started (C V S : Type 0) : Type 0 where
  pub tls : Option C
  pub router : List Route
  pub global_responses : List (ℤ × Response)
  pub transport : TransportConfig
  pub retry : RetryTransport
  pub metrics : Metrics V
  pub runtime : List (Text × Assembled S)

abbrev pub or_panicked : {R M : Type 0} → Option (R × M) → Result RunError M
or_panicked none = err metrics_panicked
or_panicked (some (r, m)) = ok m

module _ {C R V L S P : Type 0} (std : Std) (url_string : Url → String) (source : S)
    (initial : ℕ → Endpoint Url) (pickers : ReplaceablePicker Url L (Picker S)) (now later : ℕ)
    (load_pair : Text → Text → Option C) (registries : Registries R) (vectors : Vectors V) where
  -- run, up to its call of `serve`.
  unfoldable pub run : Config P → Result RunError (Started C V S)
  unfolding load_server_tls_config new_transport
  run cfg = do
    tls ← fail_as tls_failed (load_server_tls_config load_pair cfg.tls_cert_file cfg.tls_key_file)
    routes ← fail_as routes_failed (routes_from_config std cfg.routes)
    responder ←
        fail_as responder_failed (global_error_responder_from_config std cfg.error_responses)
    router ← fail_as router_failed (Construction.new std routes)
    transport ← fail_as transport_failed (
        new_transport true (record {
          max_idle_conns = cfg.upstream_max_idle_conns;
          max_idle_conns_per_host = cfg.upstream_max_idle_conns_per_host;
          max_conns_per_host = cfg.upstream_max_conns_per_host;
          idle_conn_timeout = cfg.upstream_idle_conn_timeout;
          response_header_timeout = cfg.upstream_response_header_timeout;
        }))
    retry ← fail_as retry_failed (Retry.new cfg.upstream_max_attempts cfg.upstream_retry_base_delay)
    metrics ← or_panicked (new_metrics registries vectors)
    runtime ← fail_as runtime_failed (
        assemble_routes url_string source initial pickers now later std
          cfg.upstream_circuit_failure_threshold cfg.upstream_circuit_open_timeout routes)
    ok (record {
      tls = tls;
      router = router;
      global_responses = responder;
      transport = transport;
      retry = retry;
      metrics = metrics;
      runtime = runtime;
    })

-- What the select of `serve` meets: the server's result, or a signal, with the errors of Shutdown and
-- Close and the server's result after it.
pub data Race (E : Type 0) : Type 0 where
  served : Option E → Race E
  signalled : (shutdown close after : Option E) → Race E

pub data ServeError (E : Type 0) : Type 0 where
  serve_failed serve_failed_during shutdown_failed : E → ServeError E
  shutdown_and_close_failed : E → E → ServeError E

module _ {E : Type 0} (is_closed : E → Bool) where
  -- The result of the server's goroutine, of which http.ErrServerClosed is none.
  unfoldable pub server_error : (E → ServeError E) → Option E → Option (ServeError E)
  server_error f none = none
  server_error f (some e) = if is_closed e then none else some (f e)

  unfoldable pub serve : Race E → Option (ServeError E)
  unfolding server_error
  serve (served result) = server_error serve_failed result
  serve (signalled none close after) = server_error serve_failed_during after
  serve (signalled (some e) none after) = some (shutdown_failed e)
  serve (signalled (some e) (some c) after) = some (shutdown_and_close_failed e c)

abbrev pub health_handler : Written
health_handler = record {
  headers = (codes "Content-Type", codes "text/plain; charset=utf-8") ∷ [];
  status = pos 200;
  body = codes "ok\n";
}

-- methodNotAllowedHandler, over `http.Error` with the text of the status: the Allow header, which is
-- set first, and what is written then.
unfoldable pub method_not_allowed_handler :
    (ℤ → Written) → Option (List (ℤ × Response)) → (is_head : Bool) → Text × Written
unfolding ErrorResponse.write
method_not_allowed_handler http_error responder is_head = elim responder [
  | some responses ↦ (codes "GET, HEAD", ErrorResponse.write http_error responses is_head (pos 405))
  | none ↦ (codes "GET, HEAD", http_error (pos 405))
]

pub data Served : Type 0 where
  health not_allowed metrics_of_registry gateway : Served

-- newHTTPMux, as the patterns that it registers.
abbrev pub new_http_mux : List (Text × Served)
new_http_mux =
    (codes "GET /healthz", health)
    ∷ (codes "/healthz", not_allowed)
    ∷ (codes "GET /metrics", metrics_of_registry)
    ∷ (codes "/metrics", not_allowed)
    ∷ (codes "/", gateway)
    ∷ []
