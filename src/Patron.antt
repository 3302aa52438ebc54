-- ===== src/Patron.antt =====
-- The services of backend/app/modules that stand in front of the dispatcher and let the patron act.
pub mod Services
pub mod Access
pub mod Financial
pub mod Confidential
mod Tests
