-- ===== src/Tests.antt =====
-- The theorems at concrete inputs, and runs of the code.
mod Buffer
mod Settle
mod Identity
mod Publish
mod Collect
mod Schema
mod Entities
mod Manifest
mod Systemd
mod Upgrade
mod Command
mod Resolve
