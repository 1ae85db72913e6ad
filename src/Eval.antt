-- ===== src/Eval.antt =====
-- The evaluation of retrieval (packages/eval/src/anime_eval).
pub mod Dict
pub mod Metrics
pub mod Report
pub mod Compare
