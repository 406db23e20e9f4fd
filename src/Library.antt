-- ===== src/Library.antt =====
-- The papers that users upload: backend/app/services.
pub mod Filename
pub mod Papers
mod Tests
