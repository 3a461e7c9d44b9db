-- ===== src/Proxy.antt =====
-- internal/proxy: the transports that guard the calls to the upstream.
pub mod CircuitBreaker
pub mod Netip
pub mod TrustedProxies
pub mod Retry
pub mod Releasing
pub mod ReverseProxy
pub mod Transport
