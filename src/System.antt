-- ===== src/System.antt =====
-- The processes together: the API, the scheduler and the workers take turns on one database. A step
-- is one transaction, or one call that reads and writes at once; any process may come next.
pub mod Attempts
pub mod Tables
pub mod Workers
pub mod Retries
pub mod Schedulers
pub mod Operators
pub mod Started
pub mod Expiring
pub mod Verdicts
pub mod Steps
pub mod Alone
pub mod Safety
pub mod Fencing
pub mod Expiry
pub mod Sweep
pub mod Completion
pub mod Failure
pub mod Execution
pub mod Processes
pub mod Lifecycle
pub mod Bounded
pub mod Handed
pub mod Triggered
pub mod Overruled
mod Samples
mod LateSamples
mod TwoSchedulers
mod Tests
