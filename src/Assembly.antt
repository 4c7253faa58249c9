-- ===== src/Assembly.antt =====
-- build_types/standard_tiered.py, the assembly graph: the nodes in the order in which they run.
pub mod State
pub mod Load
pub mod Partition
pub mod Live
pub mod Compact
pub mod Guard
pub mod Compacted
pub mod Archive
pub mod Once
pub mod Retained
pub mod Graph
pub mod Locking
