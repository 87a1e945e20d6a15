-- ===== src/Worker.antt =====
-- The worker process (worker/).
pub mod Claim
pub mod Heartbeat
pub mod Executor
pub mod Main
pub mod Process
pub mod Loop
mod Tests
