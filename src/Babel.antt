-- ===== src/Babel.antt =====
-- internal/babel: the Babel speaker.
pub mod Metric
pub mod Hello
pub mod Tlv
pub mod Messages
pub mod Keys
pub mod Source
pub mod Prefixes
pub mod Update
pub mod Raw
pub mod Request
pub mod Neighbor
pub mod Route
