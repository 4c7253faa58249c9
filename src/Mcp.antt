-- ===== src/Mcp.antt =====
-- app/routes/mcp.py: the sessions of the MCP endpoint, and how it answers a call.
pub mod Sessions
mod Tables
pub mod Eviction
pub mod Accounting
pub mod Drift
pub mod Call
pub mod Answers
