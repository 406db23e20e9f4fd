-- ===== src/Eval.antt =====
-- Evaluation (backend/app/eval).
pub mod Metrics
mod Tests
