-- ===== src/Qbft.antt =====
-- internal/consensus/qbft: messages, the state machine.
pub mod Message
pub mod Delivery
pub mod State
pub mod Verifier
