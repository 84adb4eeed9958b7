-- ===== src/Proxy.antt =====
-- internal/proxy: the circuit breaker, the host pool and the forwarding of requests.
pub mod Breaker
pub mod Pool
pub mod Headers
pub mod Forward
