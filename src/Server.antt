-- ===== src/Server.antt =====
-- The HTTP API of internal/server/server.go.
pub mod Request
pub mod Handlers
pub mod Listen
pub mod Access
pub mod Disconnected
pub mod Deletions
pub mod Paging
