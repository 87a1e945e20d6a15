-- ===== src/Scheduler.antt =====
-- The scheduler process (scheduler/).
pub mod Tick
pub mod Rabbitmq
pub mod Publisher
pub mod Watchdog
pub mod Main
pub mod Process
mod Samples
mod Tests
