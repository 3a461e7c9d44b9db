-- ===== src/Config/Settings.antt =====
-- internal/config/config.go, file.go and decode.go. Durations are integers of nanoseconds. The
-- environment, the file system and YAML are parameters.
use dev_gate.Common.{
  Bool, not, ◌&&◌, ◌||◌, List, [], ◌∷◌, Option, none, some, is_empty, Text, ℤ, pos, lez, ltz, codes,
  contains, eqz, Result, err, ok, ◌>>=◌, ◌>>◌, reject,
}
use dev_gate.Config.Route.{ErrorResponseConfig, FileConfig, RouteConfig}

-- A `P` is a `netip.Prefix`.
pub record Config (P : Type 0) : Type 0 where
  pub http_addr : Text
  pub read_header_timeout : ℤ
  pub max_header_bytes : ℤ
  pub idle_timeout : ℤ
  pub shutdown_timeout : ℤ
  pub config_file : Text
  pub routes : List RouteConfig
  pub log_format : Text
  pub log_level : Text
  pub tls_cert_file : Text
  pub tls_key_file : Text
  pub upstream_max_idle_conns : ℤ
  pub upstream_max_idle_conns_per_host : ℤ
  pub upstream_max_conns_per_host : ℤ
  pub upstream_idle_conn_timeout : ℤ
  pub upstream_response_header_timeout : ℤ
  pub upstream_max_attempts : ℤ
  pub upstream_retry_base_delay : ℤ
  pub upstream_circuit_failure_threshold : ℤ
  pub upstream_circuit_open_timeout : ℤ
  pub trusted_proxy_cidrs : List P
  pub error_responses : List (ℤ × ErrorResponseConfig)

pub data SettingsError : Type 0 where
  http_addr_empty read_header_timeout_bad max_header_bytes_bad idle_timeout_bad : SettingsError
  shutdown_timeout_bad config_file_empty log_format_bad log_level_bad tls_files : SettingsError
  idle_conns_bad idle_conns_per_host_bad conns_per_host_bad idle_conn_timeout_bad : SettingsError
  response_header_timeout_bad max_attempts_bad base_delay_bad : SettingsError
  failure_threshold_bad open_timeout_bad : SettingsError
  cidr_invalid cidr_unmasked cidr_all : SettingsError
  environment_bad file_unopened file_undecoded : SettingsError

-- What is asked of other packages: `strings.TrimSpace`, `net/netip`, `env.Parse`, `os.Open` and the
-- YAML decoder. A file is its text.
pub record Sources (P : Type 0) : Type 0 where
  pub trim_space : Text → Text
  pub prefix_is_valid : P → Bool
  pub is_masked : P → Bool  -- `cidr == cidr.Masked()`
  pub bits : P → ℤ
  pub parse_environment : Config P → Option (Config P)
  pub open_file : Text → Option Text
  pub decode : Text → Option FileConfig

module _ {P : Type 0} where
  -- The settings before the environment is read.
  abbrev pub defaults : Config P
  defaults = record {
    http_addr = codes ":8080";
    read_header_timeout = pos 5000000000;
    max_header_bytes = pos 65536;
    idle_timeout = pos 60000000000;
    shutdown_timeout = pos 10000000000;
    config_file = codes "devgate.yaml";
    routes = [];
    log_format = codes "text";
    log_level = codes "info";
    tls_cert_file = [];
    tls_key_file = [];
    upstream_max_idle_conns = pos 100;
    upstream_max_idle_conns_per_host = pos 20;
    upstream_max_conns_per_host = pos 100;
    upstream_idle_conn_timeout = pos 90000000000;
    upstream_response_header_timeout = pos 10000000000;
    upstream_max_attempts = pos 2;
    upstream_retry_base_delay = pos 100000000;
    upstream_circuit_failure_threshold = pos 5;
    upstream_circuit_open_timeout = pos 30000000000;
    trusted_proxy_cidrs = [];
    error_responses = [];
  }

module _ {P : Type 0} (src : Sources P) where
  -- The loop over the trusted proxies.
  unfoldable pub check_cidrs : List P → Result SettingsError (Unit {0})
  check_cidrs [] = ok tt
  check_cidrs (cidr ∷ cidrs) = do
    reject (not (src.prefix_is_valid cidr)) cidr_invalid
    reject (not (src.is_masked cidr)) cidr_unmasked
    reject (eqz (src.bits cidr) (pos 0)) cidr_all
    check_cidrs cidrs

  -- The checks of the fields on the upstream, and of the trusted proxies.
  unfoldable pub check_upstream : Config P → Result SettingsError (Unit {0})
  unfolding check_cidrs
  check_upstream c = do
    reject (lez c.upstream_max_idle_conns (pos 0)) idle_conns_bad
    reject (lez c.upstream_max_idle_conns_per_host (pos 0)) idle_conns_per_host_bad
    reject (lez c.upstream_max_conns_per_host (pos 0)) conns_per_host_bad
    reject (lez c.upstream_idle_conn_timeout (pos 0)) idle_conn_timeout_bad
    reject (lez c.upstream_response_header_timeout (pos 0)) response_header_timeout_bad
    reject (ltz c.upstream_max_attempts (pos 1) || ltz (pos 5) c.upstream_max_attempts)
        max_attempts_bad
    reject (lez c.upstream_retry_base_delay (pos 0)) base_delay_bad
    reject (ltz c.upstream_circuit_failure_threshold (pos 1)) failure_threshold_bad
    reject (lez c.upstream_circuit_open_timeout (pos 0)) open_timeout_bad
    check_cidrs c.trusted_proxy_cidrs

  unfoldable pub validate : Config P → Result SettingsError (Unit {0})
  unfolding check_upstream
  validate c = do
    reject (is_empty c.http_addr) http_addr_empty
    reject (lez c.read_header_timeout (pos 0)) read_header_timeout_bad
    reject (lez c.max_header_bytes (pos 0)) max_header_bytes_bad
    reject (lez c.idle_timeout (pos 0)) idle_timeout_bad
    reject (lez c.shutdown_timeout (pos 0)) shutdown_timeout_bad
    reject (is_empty (src.trim_space c.config_file)) config_file_empty
    reject (not (contains (codes "json" ∷ codes "text" ∷ []) c.log_format)) log_format_bad
    reject
        (not
          (contains (codes "info" ∷ codes "warn" ∷ codes "error" ∷ codes "debug" ∷ []) c.log_level))
        log_level_bad
    reject
        (is_empty c.tls_cert_file && not (is_empty c.tls_key_file)
          || not (is_empty c.tls_cert_file) && is_empty c.tls_key_file)
        tls_files
    check_upstream c

  -- loadConfigFile, with decodeConfig.
  unfoldable pub load_config_file : Text → Result SettingsError FileConfig
  load_config_file path = elim (src.open_file path) [
    | none ↦ err file_unopened
    | some file ↦ elim (src.decode file) [ none ↦ err file_undecoded | some f ↦ ok f ]
  ]

  unfoldable pub load : Result SettingsError (Config P)
  unfolding validate load_config_file
  load = elim (src.parse_environment defaults) [
    | none ↦ err environment_bad
    | some c ↦ do
      validate c
      f ← load_config_file c.config_file
      ok (record c { routes = f.routes; error_responses = f.error_responses })
  ]
