-- ===== src/Proxy/Transport.antt =====
-- internal/proxy/transport.go. What is kept of http.Transport is the settings that are set.
use dev_gate.Common.{Bool, not, ℤ, pos, lez, Result, ok, ◌>>◌, reject}

pub record TransportConfig : Type 0 where
  pub max_idle_conns : ℤ
  pub max_idle_conns_per_host : ℤ
  pub max_conns_per_host : ℤ
  pub idle_conn_timeout : ℤ
  pub response_header_timeout : ℤ

pub data TransportError : Type 0 where
  idle_conns_not_positive idle_conns_per_host_not_positive : TransportError
  conns_per_host_not_positive idle_timeout_not_positive : TransportError
  header_timeout_not_positive unexpected_type : TransportError

-- NewTransport; the test is whether http.DefaultTransport is an *http.Transport.
unfoldable pub new_transport : Bool → TransportConfig → Result TransportError TransportConfig
new_transport is_transport config = do
  reject (lez config.max_idle_conns (pos 0)) idle_conns_not_positive
  reject (lez config.max_idle_conns_per_host (pos 0)) idle_conns_per_host_not_positive
  reject (lez config.max_conns_per_host (pos 0)) conns_per_host_not_positive
  reject (lez config.idle_conn_timeout (pos 0)) idle_timeout_not_positive
  reject (lez config.response_header_timeout (pos 0)) header_timeout_not_positive
  reject (not is_transport) unexpected_type
  ok config
