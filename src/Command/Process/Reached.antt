-- ===== src/Command/Process/Reached.antt =====
-- What run of cmd/devgate/main.go makes of settings that Load accepts.
use dev_gate.Common.{
  ℕ, ◌≡◌, refl, inl, inr, Bool, true, false, List, [], ◌∷◌, Option, none, some, String, arith, Text,
  codes, text_eq, ℤ, pos, lez, ltz, ok, Bool-cases, Option-cases, is_some, All, contains, is_empty,
  pos_part, ◌||◌, if◌then◌else◌, Bool-cases,
}
use dev_gate.Router.Std.{Std, Url}
use dev_gate.Router.Route.{Route}
use dev_gate.Router.Matching.{Request, match_route}
use dev_gate.Router.Construction as Construction
use dev_gate.Config.Settings.{Config, Sources, check_upstream, load, validate}
use dev_gate.Config.Conversion.{routes_from_config}
use dev_gate.Config.Route.{FileConfig}
use dev_gate.Config.Started.{check_upstream_of_validate, load-validate}
use dev_gate.Proxy.Retry.{RetryTransport}
use dev_gate.Proxy.Retry
use dev_gate.Proxy.Transport.{new_transport}
use dev_gate.Middleware.ErrorResponse.{Response}
use dev_gate.Metrics.Prometheus.{Registries, Vectors}
use dev_gate.Metrics.Registration.{initial as no_records, new_metrics_lem}
use dev_gate.Upstream.LeastRequests.{Endpoint}
use dev_gate.Upstream.Picker.{ReplaceablePicker}
use dev_gate.Command.Picking.{Picker}
use dev_gate.Command.Responder.{global_error_responder_from_config}
use dev_gate.Command.Assembly.{Assembled}
use dev_gate.Command.Accepted.{accepted_same}
use dev_gate.Command.Runtime.{handler_of, NotGrpc, matched_handled}
use dev_gate.Command.Process.{
  load_server_tls_config, level_of, format_of, new_logger, Format, Level, Started, run, debug_level,
  info_level, warn_level, error_level, text_format, json_format,
}

chosen_level :
    (d i w e : Bool)
    → (i || (w || (e || (d || false)))) ≡ true
    → (l : Level) × ((if d
          then some debug_level
          else if i
          then some info_level
          else if w
          then some warn_level
          else if e
          then some error_level
          else none)
        ≡ some l)
chosen_level true i w e h = (debug_level, refl)
chosen_level false true w e h = (info_level, refl)
chosen_level false false true e h = (warn_level, refl)
chosen_level false false false true h = (error_level, refl)
chosen_level false false false false h = absurd (ground (arith, h))

chosen_format :
    (t j : Bool)
    → (j || (t || false)) ≡ true
    → (f : Format) × ((if t then some text_format else if j then some json_format else none)
        ≡ some f)
chosen_format true j h = (text_format, refl)
chosen_format false true h = (json_format, refl)
chosen_format false false h = absurd (ground (arith, h))

level_lem :
    (level : Text)
    → contains (codes "info" ∷ codes "warn" ∷ codes "error" ∷ codes "debug" ∷ []) level ≡ true
    → (l : Level) × (level_of level ≡ some l)
unfolding level_of contains
level_lem level e =
    chosen_level (text_eq (codes "debug") level) (text_eq (codes "info") level)
      (text_eq (codes "warn") level) (text_eq (codes "error") level) e

format_lem :
    (format : Text)
    → contains (codes "json" ∷ codes "text" ∷ []) format ≡ true
    → (f : Format) × (format_of format ≡ some f)
unfolding format_of contains
format_lem format e =
    chosen_format (text_eq (codes "text") format) (text_eq (codes "json") format) e

logger_lem :
    (format level : Text)
    → contains (codes "json" ∷ codes "text" ∷ []) format ≡ true
    → contains (codes "info" ∷ codes "warn" ∷ codes "error" ∷ codes "debug" ∷ []) level ≡ true
    → (l : Format × Level) × (new_logger format level ≡ ok l)
unfolding new_logger
logger_lem format level ef el =
    let (l, e) = level_lem level el in
    let (f, g) = format_lem format ef in ((f, l), rw (e, g, new_logger) refl)

module _ {P : Type 0} (src : Sources P) (c : Config P) (v : validate src c ≡ ok tt) where
  format_of_validate : contains (codes "json" ∷ codes "text" ∷ []) c.log_format ≡ true
  unfolding validate
  format_of_validate = ground (arith, v)

  level_of_validate :
      contains (codes "info" ∷ codes "warn" ∷ codes "error" ∷ codes "debug" ∷ []) c.log_level ≡ true
  unfolding validate
  level_of_validate = ground (arith, v)

  tls_lem :
      {C : Type 0} (load_pair : Text → Text → Option C)
      → (is_empty c.tls_cert_file ≡ false
          → is_some (load_pair c.tls_cert_file c.tls_key_file) ≡ true)
      → (t : Option C) × (load_server_tls_config load_pair c.tls_cert_file c.tls_key_file ≡ ok t)
  unfolding validate load_server_tls_config
  tls_lem load_pair loads = elim (Bool-cases (is_empty c.tls_cert_file)) [
    | inl e ↦ (none, ground (arith, e, v))
    | inr e ↦ elim (Option-cases (load_pair c.tls_cert_file c.tls_key_file)) [
      | inl n ↦ absurd (ground (arith, loads e, n))
      | inr (t, n) ↦ (some t, ground (arith, e, v, n))
    ]
  ]

  -- The checks of the constructors of internal/proxy that the process calls.
  transport_lem :
      new_transport true (record {
        max_idle_conns = c.upstream_max_idle_conns;
        max_idle_conns_per_host = c.upstream_max_idle_conns_per_host;
        max_conns_per_host = c.upstream_max_conns_per_host;
        idle_conn_timeout = c.upstream_idle_conn_timeout;
        response_header_timeout = c.upstream_response_header_timeout;
      })
      ≡ ok (record {
        max_idle_conns = c.upstream_max_idle_conns;
        max_idle_conns_per_host = c.upstream_max_idle_conns_per_host;
        max_conns_per_host = c.upstream_max_conns_per_host;
        idle_conn_timeout = c.upstream_idle_conn_timeout;
        response_header_timeout = c.upstream_response_header_timeout;
      })
  unfolding check_upstream new_transport
  transport_lem = let passed = check_upstream_of_validate src c v in ground (arith, passed)

  threshold_lem : ltz c.upstream_circuit_failure_threshold (pos 1) ≡ false
  unfolding check_upstream
  threshold_lem = let passed = check_upstream_of_validate src c v in ground (arith, passed)

  open_timeout_lem : lez c.upstream_circuit_open_timeout (pos 0) ≡ false
  unfolding check_upstream
  open_timeout_lem = let passed = check_upstream_of_validate src c v in ground (arith, passed)

  retry_lem :
      Retry.new c.upstream_max_attempts c.upstream_retry_base_delay
      ≡ ok (record {
        base_delay = pos_part c.upstream_retry_base_delay;
        max_attempts = pos_part c.upstream_max_attempts;
      })
  unfolding check_upstream Retry.new
  retry_lem = let passed = check_upstream_of_validate src c v in ground (arith, passed)

-- What the gateway is started with has a handler for each request that its router matches.
abbrev pub IsServable : {C V S : Type 0} → Std → List Route → Started C V S → Type 0
IsServable std accepted x =
    (x.router ≡ accepted)
    × ((q : Request) (r : Route)
        → match_route std x.router q ≡ some r
        → (a : Assembled _) × (handler_of r.name x.runtime ≡ some a))

module _ {C R V L S P : Type 0} (std : Std) (url_string : Url → String) (source : S)
    (initial : ℕ → Endpoint Url) (pickers : ReplaceablePicker Url L (Picker S)) (now later : ℕ)
    (load_pair : Text → Text → Option C) (registries : Registries R) (vectors : Vectors V)
    (src : Sources P) where
  validated_run :
      (d : Config P) (f : FileConfig) (routes accepted : List Route)
      (responses : List (ℤ × Response))
      → validate src d ≡ ok tt
      → (is_empty d.tls_cert_file ≡ false
          → is_some (load_pair d.tls_cert_file d.tls_key_file) ≡ true)
      → routes_from_config std f.routes ≡ ok routes
      → global_error_responder_from_config std f.error_responses ≡ ok responses
      → Construction.new std routes ≡ ok accepted
      → All NotGrpc accepted
      → (x : Started C V S) × (run std url_string source initial pickers now later load_pair
            registries vectors
            (record d { routes = f.routes; error_responses = f.error_responses })
          ≡ ok x)
        × IsServable std accepted x
  unfolding run
  validated_run d f routes accepted responses v loads e₁ e₂ e₃ n =
      let (tls, e₀) = tls_lem src d v load_pair loads in
      let (registry, e₄, names) = new_metrics_lem registries vectors in
      let (rt, e₅, found) =
        matched_handled std url_string source initial pickers now later
          d.upstream_circuit_failure_threshold d.upstream_circuit_open_timeout routes accepted
          (threshold_lem src d v) (open_timeout_lem src d v) e₃ n in
      (
        record {
          tls = tls;
          router = accepted;
          global_responses = responses;
          transport = record {
            max_idle_conns = d.upstream_max_idle_conns;
            max_idle_conns_per_host = d.upstream_max_idle_conns_per_host;
            max_conns_per_host = d.upstream_max_conns_per_host;
            idle_conn_timeout = d.upstream_idle_conn_timeout;
            response_header_timeout = d.upstream_response_header_timeout;
          };
          retry = record {
            base_delay = pos_part d.upstream_retry_base_delay;
            max_attempts = pos_part d.upstream_max_attempts;
          };
          metrics = no_records registries vectors;
          runtime = rt;
        },
        rw
            (
              e₀,
              e₁,
              e₂,
              e₃,
              transport_lem src d v,
              retry_lem src d v,
              e₄,
              accepted_same std routes accepted e₃,
              e₅,
              run,
            )
            refl,
        (refl, found),
      )

  -- Settings that Load accepts, whose key pair can be loaded if they name one, and whose routes and
  -- error responses are converted and accepted, none of the routes being for gRPC, start the process:
  -- the logger is created, and run reaches its call of serve, with a router of the accepted routes and
  -- a runtime that has a handler of the name of whatever route the router matches with a request.
  pub run_reaches_serve :
      (c : Config P) (routes accepted : List Route) (responses : List (ℤ × Response))
      → load src ≡ ok c
      → (is_empty c.tls_cert_file ≡ false
          → is_some (load_pair c.tls_cert_file c.tls_key_file) ≡ true)
      → routes_from_config std c.routes ≡ ok routes
      → global_error_responder_from_config std c.error_responses ≡ ok responses
      → Construction.new std routes ≡ ok accepted
      → All NotGrpc accepted
      → ((l : Format × Level) × (new_logger c.log_format c.log_level ≡ ok l))
        × ((x : Started C V S) × (run std url_string source initial pickers now later load_pair
                registries vectors c
              ≡ ok x)
            × IsServable std accepted x)
  run_reaches_serve c routes accepted responses e loads e₁ e₂ e₃ n =
      let (d, f, v, q) = load-validate src c e in
      let ran =
        validated_run d f routes accepted responses v (rw q at loads) (rw q at e₁) (rw q at e₂) e₃
          n in
      (
        rw q (
            logger_lem d.log_format d.log_level (format_of_validate src d v)
              (level_of_validate src d v)),
        rw q ran,
      )
