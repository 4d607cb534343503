-- ===== src/Mint.antt =====
-- The directory tap-onchain/src/mint: seedlings, batches and the planter.
pub mod Interface
pub mod Seedling
pub mod Batch
pub mod Planter
