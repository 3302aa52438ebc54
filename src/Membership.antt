-- ===== src/Membership.antt =====
-- The work of collaborators: backend/app/modules/membership. A collaborator works on the tasks of the
-- cases that are assigned to them; tasks have results, blockers and requests for information.
pub mod Rows
pub mod Assignment
pub mod TaskCommands
pub mod WorkTask
pub mod Blockers
pub mod Requests
pub mod Closing
pub mod Kept
pub mod Steps
pub mod Reopening
mod Tests
