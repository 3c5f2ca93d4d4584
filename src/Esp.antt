-- ===== src/Esp.antt =====
-- The receiving side of ESP, esp.
pub mod Replay
