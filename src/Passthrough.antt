-- ===== src/Passthrough.antt =====
-- build_types/passthrough.py: the build type with no tiers.
pub mod Assembly
pub mod Retrieval
pub mod Laws
pub mod References
pub mod Newest
