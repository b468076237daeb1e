-- ===== src/Upgrade.antt =====
-- internal/upgrade and internal/cli/upgrade.go: the release to install, its archive, and when the
-- new binary is handed the installation.
pub mod Version
pub mod Http
pub mod Release
pub mod Machine
pub mod Fetch
pub mod Command
