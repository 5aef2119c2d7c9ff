-- ===== src/Entities.antt =====
-- packages/domain/src/entities.ts: the records of a meeting and the functions that check them.
pub mod Common
pub mod People
pub mod Sources
pub mod Claims
pub mod Decisions
pub mod Validity
