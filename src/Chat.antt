-- ===== src/Chat.antt =====
-- backend/core/chat: conversations as trees of nodes.
pub mod Usage
pub mod Conversation
pub mod Walks
pub mod Deletion
pub mod Trees
