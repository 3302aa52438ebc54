-- ===== src/Submission.antt =====
-- What a submission reads before it is sent: backend/app/modules/submission.
pub mod GateReader
pub mod Risks
pub mod Requirements
pub mod Reading
pub mod Tests
