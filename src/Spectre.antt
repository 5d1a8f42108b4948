-- ===== src/Spectre.antt =====
-- MemoryLatencyAnalyzer_linux/src/spectre_v1.cpp: the scores of the probe lines, the attack loop over an
-- abstract processor, the strings that it reads and the reliability lab.
pub mod Scores
pub mod Ranking
pub mod Machine
pub mod Reload
pub mod Reader
pub mod Clean
pub mod Recover
pub mod Lab
pub mod Secret
pub mod Perfect
mod Examples
