-- ===== src/Metrics.antt =====
-- internal/metrics, over what it uses of github.com/prometheus/client_golang.
pub mod Prometheus
pub mod Breaker
pub mod Health
pub mod Traffic
pub mod Registration
