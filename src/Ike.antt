-- ===== src/Ike.antt =====
-- The IKEv2 messages of ike.
pub mod Header
pub mod Payload
pub mod Proposal
pub mod Bodies
