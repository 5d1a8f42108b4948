-- ===== src/Capability.antt =====
-- What MemoryLatencyAnalyzer_linux/src/cpu_capability.cpp reads from the processor.
pub mod Detect
pub mod Brand
pub mod Signature
mod Examples
