-- ===== src/Conversations.antt =====
-- conversation_ops_flow.py: the operations on conversations and context windows.
pub mod Create
pub mod Windows
pub mod History
pub mod Admin
pub mod Context
pub mod Chronology
pub mod Reuse
pub mod Integrity
pub mod References
pub mod GetContext
pub mod Requests
pub mod Deletion
pub mod Searching
