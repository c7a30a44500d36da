-- ===== src/Protocol.antt =====
-- The messages of the protocol (src/protocol).
pub mod Tags
pub mod Event
pub mod Subscription
pub mod Commands
pub mod Responses
