-- ===== src/Operational.antt =====
-- The operational lab of MemoryLatencyAnalyzer_linux/src/operational_lab.cpp.
pub mod Json
pub mod Scenarios
pub mod Run
pub mod Counts
pub mod Listed
pub mod Report
mod Examples
