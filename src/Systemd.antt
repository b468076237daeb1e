-- ===== src/Systemd.antt =====
-- internal/systemd: the settings file of the service.
pub mod EnvFile
