-- ===== src/Tss.antt =====
-- The threshold-signature parts.
pub mod Session
pub mod Dkg
pub mod Engine
