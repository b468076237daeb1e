-- ===== src/Identity.antt =====
-- internal/identity: the entities that omnistat owns, found and created by their external keys.
-- The platform is a state that the calls of the API read and change.
pub mod Keys
pub mod Api
pub mod Upsert
pub mod Host
pub mod Keyed
