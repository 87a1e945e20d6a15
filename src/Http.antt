-- ===== src/Http.antt =====
-- The middleware of nexusops/ and the health checks of apps/core/.
pub mod Data
pub mod RateLimit
pub mod Idempotency
pub mod Health
mod Tests
pub mod Stack
