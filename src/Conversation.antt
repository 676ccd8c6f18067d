-- ===== src/Conversation.antt =====
-- conversation.py: the message history, its checkpoints and its plans.
pub mod Message
pub mod Log
pub mod Turns
pub mod Rollback
pub mod Repair
pub mod Wire
pub mod Parts
pub mod Indexed
pub mod Mutation
