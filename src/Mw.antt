-- ===== src/Mw.antt =====
-- internal/mw: the middleware that the gateway brings, each around the handler inside it.
pub mod RateLimit
pub mod Cors
pub mod Headers
pub mod ApiKey
mod Scenarios
