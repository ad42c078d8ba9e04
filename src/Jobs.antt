-- ===== src/Jobs.antt =====
-- internal/jobs/jobs.go: the durable migration workflows.
pub mod Adapter
pub mod ApiClient
pub mod Subset
pub mod Report
pub mod Manager
pub mod Validation
pub mod Workflow
pub mod Planning
pub mod Postgres
pub mod Planned
