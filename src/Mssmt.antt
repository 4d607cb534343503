-- ===== src/Mssmt.antt =====
-- tap-primitives/src/mssmt: the Merkle-sum sparse Merkle tree.
pub mod Hashing
pub mod Toy
pub mod Node
pub mod Proof
pub mod Store
pub mod Tree
