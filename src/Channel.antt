-- ===== src/Channel.antt =====
-- tap-ldk/src/channel: the allocation of coins to the outputs of a channel transaction.
pub mod Interface
pub mod Order
pub mod Allocation
