-- ===== src/Collect.antt =====
-- internal/collect: observations become stamped, typed samples, and wait in buffers for the
-- next publish.
pub mod Sample
pub mod Buffer
pub mod Buffers
pub mod Validate
pub mod Failures
pub mod Observe
pub mod Sources
