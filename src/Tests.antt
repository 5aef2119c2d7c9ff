-- ===== src/Tests.antt =====
-- Runs of the model on concrete data, and the theorems applied to them.
pub mod Data
pub mod Entities
pub mod Decisions
pub mod Projection
pub mod Application
pub mod Store
pub mod Displays
pub mod Meetings
