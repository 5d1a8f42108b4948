-- ===== src/Evaluation.antt =====
-- The evaluation lab of MemoryLatencyAnalyzer_linux/src/evaluation_lab.cpp.
pub mod Real
pub mod Metrics
pub mod Run
pub mod Layout
pub mod Listed
pub mod CountFields
pub mod ScoreFields
pub mod Report
pub mod Counts
mod Examples
