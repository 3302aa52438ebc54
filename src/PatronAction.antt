-- ===== src/PatronAction.antt =====
-- Actions that the patron follows up: backend/app/modules/patron_action. The children hold the
-- state machine, the transition handler over the stored rows, and what is proved of them.
pub mod State
pub mod Transition
pub mod Rows
pub mod Moves
pub mod History
mod Tests
