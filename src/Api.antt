-- ===== src/Api.antt =====
-- The HTTP edge: src/dealership_agent/api.
pub mod RateLimit
pub mod Auth
pub mod Conversations
pub mod Chat
pub mod Health
