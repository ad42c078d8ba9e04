-- ===== src/State.antt =====
-- internal/state/store.go: the durable jobs, their events and reports.
pub mod Time
pub mod Tables
pub mod Jobs
pub mod Audit
pub mod Opening
pub mod Order
pub mod Ranks
pub mod Paging
pub mod Chronology
pub mod Invariant
pub mod Preservation
pub mod Deletion
