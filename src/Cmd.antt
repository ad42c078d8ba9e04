-- ===== src/Cmd.antt =====
-- cmd/dokploy-migrator/main.go: the command line.
pub mod Flags
pub mod Runtime
pub mod Start
pub mod Serve
pub mod Reports
pub mod Writes
pub mod Run
pub mod Databases
pub mod Moves
pub mod Serving
pub mod Confirmed
pub mod Quiet
pub mod Effects
pub mod Panics
