-- ===== src/Session.antt =====
-- What `main` of MemoryLatencyAnalyzer_linux/src/main.cpp does in the mode of the measurements, and the NUMA matrix.
pub mod Sequence
pub mod Latencies
pub mod Exit
pub mod Names
pub mod Rows
pub mod SharedRow
pub mod Table
pub mod Matrix
pub mod Initiators
pub mod Cells
mod Examples
