-- ===== src/Pipeline.antt =====
-- message_pipeline.py, the flow conv_store_message: a message is resolved to its conversation,
-- classified, and stored with the next sequence number, or collapsed into an identical one.
pub mod Roles
pub mod Ingest
pub mod Effects
pub mod Sameness
pub mod Outcomes
pub mod Counters
pub mod Repeats
