-- ===== src/Report.antt =====
-- The files that MemoryLatencyAnalyzer_linux/src/reporter.cpp writes.
pub mod Rows
pub mod Reader
pub mod Csv
mod Examples
