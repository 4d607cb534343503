-- ===== src/Lib.antt =====
-- A verification library of the Rust workspace taproot-ldk (rust-tap), the Taproot Assets Protocol
-- for LDK.
--
-- Parts, and the files that model them (paths from the repository's root):
-- - Encoding/BigSize: tap-primitives/src/encoding/bigsize.rs.
-- - Encoding/Tlv: tap-primitives/src/encoding/tlv.rs, whose streams use BigSize numbers for the
--   types and lengths.
-- - Mssmt/Node: tap-primitives/src/mssmt/node.rs, the nodes of the Merkle-sum sparse Merkle tree.
-- - Mssmt/Proof: tap-primitives/src/mssmt/proof.rs and `verify_merkle_proof` of mssmt/tree.rs.
-- - Mssmt/Store: tap-primitives/src/mssmt/store.rs, the in-memory store, which Mssmt/Tree uses.
-- - Mssmt/Tree: tap-primitives/src/mssmt/tree.rs, the full tree.
-- - Mint: tap-onchain/src/mint, seedlings, batches and the planter; Mint/Interface has what it takes
--   from the wallet and from the asset and commitment modules, as parameters.
-- - ProofFile: tap-primitives/src/proof/file.rs, files of proofs in a hash chain, over BigSize lengths.
-- - Rfq/FixedPoint: tap-ldk/src/rfq/math.rs, the rates of quotes and their conversions.
-- - Rfq/Manager: tap-ldk/src/rfq/manager.rs, the quotes and the HTLCs in flight against them, with the
--   requests, accepts and rejects of tap-ldk/src/wire and the lines of tap-ldk/src/ldk/mod.rs that
--   admit an HTLC; Rfq/Keyed is its hash maps. It converts units with Rfq/FixedPoint.
-- - Rfq/Intercept: the interception of HTLCs in tap-ldk/src/ldk/mod.rs, over Rfq/Manager; what LDK
--   answers is a parameter, and the calls made to it are part of the outcome.
-- - Vm: tap-primitives/src/vm/mod.rs, the engine that checks state transitions, with the assets,
--   witnesses and previous ids of tap-primitives/src/asset and the split locators of
--   tap-primitives/src/commitment/split.rs, and `asset_to_leaf` of tap-primitives/src/encoding/asset.rs;
--   it verifies splits with Mssmt/Proof.
-- - Channel/Allocation: tap-ldk/src/channel/allocation.rs, the allocation of coins to the outputs of
--   a channel transaction; Channel/Interface has the assets, commitments and packets that it takes
--   from tap-primitives, as parameters.
-- - Backoff: tap-onchain/src/proof/backoff.rs, the retry loop of the couriers.
-- - TxMerkle: tap-onchain/src/proof/merkle.rs and tap-primitives/src/proof/tx_merkle.rs, proofs that
--   a transaction is in a block; its double SHA-256 is another `Sha256`.
-- - Common: bytes, lists, results and tests that these share.
--
-- Conventions. A function of the source keeps its name. A byte slice or array is a list of
-- numbers below 256, an unsigned integer a number with its wrap-around written out, a `Result` the
-- `Result` of Common/Results. SHA-256 is the parameter `Sha256` of Mssmt/Hashing: some function of
-- bytes to 32 bytes. Nothing is assumed of collisions; where the code relies on their absence, a
-- theorem gives its conclusion or a collision. Mssmt/Toy is a function that evaluates, for the
-- concrete runs only.
-- Release builds are modelled where a sum may overflow: `BranchNode::node_sum` adds modulo 2 ^ 64.
-- The sum of an offset and a length in `TlvStream::decode_with_limit` is a panic where it wraps around.
--
-- The states of the quote manager are explicit, and a run is a sequence of calls; its price oracle,
-- its signer and the draws of the random number generator are parameters or arguments.
--
-- Loops. The loop of `TlvStream::decode_with_limit` has as much fuel as the input has bytes, and
-- each round takes at least two. The copy of a tree
-- (`copy_tree_store`) has fuel for 257 levels, and the loops over the levels of a block's tree one
-- round for each transaction. The search of a free quote id goes
-- as far as the given draws. The other loops run over a list or a fixed number of levels.
--
-- The retries of Backoff are at most `max_retries` rounds and one call. Its durations are numbers
-- without a bound.
--
-- Not modelled: the texts of errors, the caches of hashes and sums, and the crates that talk to
-- networks, databases and wallets; PROJECT.json lists them.
pub mod Channel
pub mod Common
pub mod Encoding
pub mod Mint
pub mod Mssmt
pub mod ProofFile
pub mod Vm
pub mod Backoff
pub mod Rfq
pub mod TxMerkle
