-- ===== src/StateMachine.antt =====
-- packages/domain/src/decision-state-machine.ts: the life of a Decision, the Actions that it holds,
-- its revisions and the tasks that reconsider it.
pub mod Requests
pub mod Transition
pub mod Holds
pub mod Revisions
pub mod Tasks
pub mod Recommit
