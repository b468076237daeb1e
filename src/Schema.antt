-- ===== src/Schema.antt =====
-- internal/schema: what is in the project, what is missing there, and how it is created.
pub mod Types
pub mod Diff
pub mod Execute
pub mod Apply
