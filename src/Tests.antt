-- ===== src/Tests.antt =====
-- Runs of the definitions on fixed inputs, and the theorems applied to them.
mod Consensus
mod Auction
mod Pools
mod Blocks
mod Node
mod Service
mod Startup
mod Dkg
mod Decrypters
mod Engine
