-- ===== src/Cli.antt =====
-- The command line of MemoryLatencyAnalyzer_linux/src/main.cpp: number arguments, the option loop of
-- `main`, its final checks and the choice of what to run.
pub mod Numbers
pub mod Options
pub mod Parse
pub mod Plan
pub mod Inputs
pub mod Bounds
pub mod Compose
pub mod Launch
pub mod Readback
mod Examples
