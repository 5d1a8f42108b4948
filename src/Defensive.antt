-- ===== src/Defensive.antt =====
-- The defensive lab of MemoryLatencyAnalyzer_linux/src/defensive_lab.cpp.
pub mod Lab
pub mod Events
pub mod Report
mod Examples
