-- ===== src/Validation.antt =====
-- src/validation: the checks of uploaded files.
pub mod Uploads
