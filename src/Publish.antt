-- ===== src/Publish.antt =====
-- internal/publish: what is buffered goes to the platform, dimensions as one partial update of an
-- entity and metrics in chunks, and what was accepted is acknowledged.
pub mod Types
pub mod Render
pub mod Update
pub mod Send
pub mod Batch
pub mod Entities
