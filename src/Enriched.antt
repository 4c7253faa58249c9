-- ===== src/Enriched.antt =====
-- build_types/knowledge_enriched.py: the retrieval graph of the build type "knowledge-enriched". Its
-- assembly is that of the standard tiers.
pub mod Graph
pub mod Laws
pub mod Live
