-- ===== src/Guardian.antt =====
-- core/guardian: the message guardian.
pub mod RateLimit
pub mod Replay
pub mod Secrets
pub mod Forward
pub mod Server
