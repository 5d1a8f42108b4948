-- ===== src/Topology.antt =====
-- CPU lists, NUMA nodes and the choice of CPUs.
pub mod CpuList
pub mod Nodes
pub mod Homes
pub mod Cores
pub mod Choice
pub mod Caches
pub mod Levels
mod Examples
