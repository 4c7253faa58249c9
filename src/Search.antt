-- ===== src/Search.antt =====
-- search_flow.py and the queries on the system log of conversation_ops_flow.py: the queries that the
-- flows send, as the conditions with their placeholders and the arguments, and the ranking of what
-- comes back. What Postgres makes of a query is outside.
pub mod Queries
pub mod Logs
pub mod Rerank
pub mod Bindings
pub mod Ranked
