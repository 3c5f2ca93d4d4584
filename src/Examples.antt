-- ===== src/Examples.antt =====
-- The theorems at concrete inputs.
pub mod Sources
pub mod Links
pub mod Codecs
pub mod Routes
pub mod Tunnels
pub mod Tables
pub mod Exchanges
