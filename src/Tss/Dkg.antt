-- ===== src/Tss/Dkg.antt =====
-- internal/tss/dkg: the distributed key generation of the committee.
pub mod Curve
pub mod Feldman
pub mod Config
pub mod Runner
pub mod Sending
pub mod Epoch
pub mod Finalize
pub mod Handlers
pub mod Dispatch
mod Core
pub mod Rules
mod Fresh
pub mod Sound
pub mod Outcome
pub mod Silence
pub mod Epochs
pub mod Exchange
