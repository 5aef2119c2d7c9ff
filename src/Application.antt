-- ===== src/Application.antt =====
-- packages/application/src: what the services build on.
pub mod Authorization
pub mod Sessions
pub mod Meetings
pub mod DisplayTokens
