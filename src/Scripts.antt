-- ===== src/Scripts.antt =====
-- The certification scripts of scripts/.
pub mod Certification
pub mod ReadCertification
mod Tests
