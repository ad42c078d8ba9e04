-- ===== src/Sshrestore.antt =====
-- The restore commands of internal/sshrestore/sshrestore.go.
pub mod Paths
pub mod Commands
pub mod Shell
pub mod Quoting
pub mod Restore
pub mod Executor
pub mod Wire
pub mod Sessions
pub mod Scp
pub mod Header
pub mod Uploads
pub mod Closing
