-- ===== src/Dokploydb.antt =====
-- internal/dokploydb/postgres.go: the guarded adapter of the Dokploy database.
pub mod Postgres
pub mod Columns
pub mod Guard
pub mod Adapter
pub mod Resources
pub mod Counts
pub mod Plan
pub mod Status
pub mod Servers
pub mod Retarget
