-- ===== src/Sdk.antt =====
-- packages/channels-sdk: what the guardian and the channel adapters share.
pub mod Value
pub mod Compare
pub mod Payload
pub mod Split
