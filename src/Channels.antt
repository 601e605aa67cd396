-- ===== src/Channels.antt =====
-- packages/channel-slack and packages/channel-discord: the adapters' own logic.
pub mod Adapter
pub mod Api
pub mod Commands
pub mod Conversation
pub mod Permissions
pub mod SessionKeys
