-- ===== src/Retrieval.antt =====
-- build_types/standard_tiered.py, the retrieval graph: what a participant gets as its context.
pub mod State
pub mod Load
pub mod Context
pub mod Budget
pub mod Wait
pub mod Recent
