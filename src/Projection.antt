-- ===== src/Projection.antt =====
-- packages/domain/src/projections.ts: the state of a meeting as the fold of its events.
pub mod State
pub mod Upsert
pub mod Shared
pub mod Private
pub mod Meeting
