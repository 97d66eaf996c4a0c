-- ===== src/Web.antt =====
-- apps/web: the writes that a user submits.
pub mod Writes
pub mod Validation
pub mod Wizard
