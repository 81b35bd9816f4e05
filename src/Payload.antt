-- ===== src/Payload.antt =====
-- internal/payload: transactions, the typed mempools, the container, the block builder and the
-- decrypters.
pub mod Types
pub mod NoncePool
pub mod PrivatePool
pub mod Container
pub mod Builder
pub mod Processing
pub mod Threshold
pub mod Decrypters
