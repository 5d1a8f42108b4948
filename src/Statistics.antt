-- ===== src/Statistics.antt =====
-- The statistics of MemoryLatencyAnalyzer_linux/src/statistics.cpp and the clock of
-- MemoryLatencyAnalyzer_linux/src/timer.cpp.
pub mod Summary
pub mod Quantiles
pub mod Hundredths
pub mod Timer
pub mod Readings
pub mod Estimates
pub mod Calibration
mod Examples
