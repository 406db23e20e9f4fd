-- ===== src/Research.antt =====
-- Research analyses (backend/app/research).
pub mod Conflicts
pub mod Report
pub mod Claims
mod Tests
