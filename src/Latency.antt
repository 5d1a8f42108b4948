-- ===== src/Latency.antt =====
-- The latency measurements of MemoryLatencyAnalyzer_linux/src/latency_measurer.cpp.
pub mod Sizes
pub mod Rings
pub mod Measure
pub mod RandomRing
pub mod Samples
pub mod Valid
mod Examples
pub mod StrideRing
