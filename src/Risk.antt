-- ===== src/Risk.antt =====
-- The register of risks of a case, and their links to requirements: the risks of
-- backend/app/modules/decision.
pub mod Domain
pub mod Tables
pub mod Repository
pub mod Register
pub mod Treatment
pub mod ReadBack
pub mod Linking
pub mod Closing
mod Tests
