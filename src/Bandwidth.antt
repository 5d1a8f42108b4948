-- ===== src/Bandwidth.antt =====
-- The bandwidth measurement of MemoryLatencyAnalyzer_linux/src/bandwidth_measurer.cpp.
pub mod Buffers
pub mod Rates
pub mod Release
mod Examples
