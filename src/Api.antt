-- ===== src/Api.antt =====
-- The REST API (apps/jobs/views.py, apps/executions/views.py) and the management commands.
pub mod Ops
pub mod Serializer
pub mod Save
pub mod Jobs
pub mod Executions
mod Tests
