-- ===== src/Quality.antt =====
-- memory/quality_wrapper.py and cea_extraction_flow.py: facts with their quality metadata, feedback
-- and expiration, around the mem0 library.
pub mod Wrapper
pub mod Expiry
pub mod Laws
pub mod Expired
pub mod Kept
pub mod Dispatch
pub mod Counting
