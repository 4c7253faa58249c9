-- ===== src/Conversations/Searching.antt =====
-- The rows that the search for windows of conversation_ops_flow.py gives.
