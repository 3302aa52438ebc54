-- ===== src/Dce.antt =====
-- Consultations and the document corpora admitted under them:
-- backend/app/modules/dce/domain/consultation.py and dce_version.py.
pub mod Version
pub mod Corpus
pub mod Immutability
pub mod Consultation
pub mod Identity
pub mod Durability
mod Tests
