-- ===== src/Net.antt =====
-- The local decisions of the peer-to-peer layer.
pub mod Gates
pub mod Limits
pub mod Wire
