-- ===== src/Shared.antt =====
-- The shared-memory measurement of MemoryLatencyAnalyzer_linux/src/shared_memory_measurer.cpp.
pub mod Wait
pub mod Deadline
pub mod Protocol
pub mod Handshake
pub mod Calls
pub mod Progress
pub mod Measure
pub mod Results
pub mod Cleanup
mod Examples
