-- ===== src/Mssmt/Proof.antt =====
-- tap-primitives/src/mssmt/proof.rs, and `verify_merkle_proof` of mssmt/tree.rs.
pub mod Binding
pub mod Compression
pub mod Roots
pub mod Bits
pub mod Wire
mod Examples
use rust_tap.Common.{ℕ, zero, suc, ◌+◌, ◌-◌, ◌*◌, ◌/◌, ◌%◌, ◌^◌, Bool, true, false}
use rust_tap.Common.{Option, none, some, List, [], ◌∷◌, ◌++◌, Result, ok, err, ◌>>=◌, ◌>>◌, ensure}
use rust_tap.Common.{ltb, leb, ◌==◌, if◌then◌else◌, length, take, drop, get_or, set, replicate}
use rust_tap.Common.Bytes.{to_be_bytes, from_be_bytes}
use rust_tap.Mssmt.Hashing.{Sha256}
use rust_tap.Mssmt.Node.{hash_size, max_tree_levels, NodeHash, Key, LeafNode, ComputedNode, Node}
use rust_tap.Mssmt.Node.{BranchNode, branch_node, as_branch, node_hash, node_sum, is_equal_node}
use rust_tap.Mssmt.Node.{leaf, computed, empty_tree, join}
use Prim.Native.Nat.{bit_or}

-- `nodes` begins with the sibling at level 255.
pub record Proof : Type 0 where
  pub nodes : List Node

-- `Proof::new`; `none` is the failed assertion.
unfoldable pub new_proof : List Node → Option Proof
new_proof nodes = if length nodes == max_tree_levels then some (record { nodes = nodes }) else none

-- Bit `i` says that node `i` of the proof is the empty tree's and is left out of `nodes`.
pub record CompressedProof : Type 0 where
  pub bits : List Bool
  pub nodes : List ComputedNode

-- The messages of `decompress` and `decode`, with the numbers that they show.
pub data ProofError : Type 0 where
  too_few_nodes : ℕ → ProofError
  unused_nodes : ℕ → ProofError
  too_short : ℕ → ProofError

-- `packed[i / 8] |= 1 << (i % 8)`
unfoldable pub set_bit : List ℕ → ℕ → List ℕ
set_bit packed i = set packed (i / 8) (bit_or (get_or packed (i / 8) 0) (2 ^ (i % 8)))

unfoldable pub pack_loop : List ℕ → ℕ → List Bool → List ℕ
unfolding set_bit
pack_loop packed i [] = packed
pack_loop packed i (b ∷ bits) = pack_loop (if b then set_bit packed i else packed) (i + 1) bits

unfoldable pub pack_bits : List Bool → List ℕ
unfolding pack_loop
pack_bits bits = pack_loop (replicate 32 0) 0 bits

-- `(packed[i / 8] >> (i % 8)) & 1 == 1`
unfoldable pub bit_at : List ℕ → ℕ → Bool
bit_at packed i = get_or packed (i / 8) 0 / 2 ^ (i % 8) % 2 == 1

-- `n` rounds from index `i` on.
unfoldable pub unpack_loop : ℕ → ℕ → List ℕ → List Bool
unfolding bit_at
unpack_loop zero i packed = []
unpack_loop (suc n) i packed = bit_at packed i ∷ unpack_loop n (i + 1) packed

unfoldable pub unpack_bits : List ℕ → List Bool
unfolding unpack_loop
unpack_bits packed = unpack_loop max_tree_levels 0 packed

encode_nodes : List ComputedNode → List ℕ
encode_nodes [] = []
encode_nodes (n ∷ ns) = (n.hash ++ to_be_bytes 8 n.sum) ++ encode_nodes ns

unfoldable pub encode : CompressedProof → List ℕ
unfolding encode_nodes
encode p = (to_be_bytes 2 (length p.nodes % 2 ^ 16) ++ encode_nodes p.nodes) ++ pack_bits p.bits

-- `num_nodes` rounds on `data[offset..]`, and the bytes behind them.
decode_nodes : ℕ → List ℕ → List ComputedNode × List ℕ
decode_nodes zero bytes = ([], bytes)
decode_nodes (suc k) bytes =
    let bytes' = drop hash_size bytes in
    let node : ComputedNode = record {
      hash = take hash_size bytes;
      sum = from_be_bytes (take 8 bytes');
    } in
    let (nodes, rest) = decode_nodes k (drop 8 bytes') in (node ∷ nodes, rest)

unfoldable pub decode : List ℕ → Result CompressedProof ProofError
unfolding decode_nodes
decode bytes =
    if ltb (length bytes) 2
    then err (too_short (length bytes))
    else let num_nodes = from_be_bytes (take 2 bytes) in
      if ltb (length bytes) (2 + num_nodes * 40 + 32)
      then err (too_short (length bytes))
      else let (nodes, rest) = decode_nodes num_nodes (drop 2 bytes) in
        ok (record { bits = unpack_bits (take 32 rest); nodes = nodes })

module _ ⦃sha256 : Sha256⦄ where
  -- `n` rounds, at the levels `n - 1` down to 0. A missing sibling would be an index out of range.
  unfoldable pub root_loop : ℕ → Key → Node → List Node → Node
  root_loop zero key current siblings = current
  root_loop (suc i) key current [] = current
  root_loop (suc i) key current (s ∷ siblings) = root_loop i key (join key i current s) siblings

  -- `none` is the `unreachable!()`.
  unfoldable pub root : Proof → Key → Node → Option BranchNode
  unfolding root_loop
  root p key n = as_branch (root_loop max_tree_levels key n p.nodes)

  unfoldable pub verify_merkle_proof : Key → LeafNode → Proof → Node → Bool
  unfolding root
  verify_merkle_proof key n p root_node = elim (root p key (leaf n)) [
    | none ↦ false
    | some b ↦ is_equal_node (branch_node b) root_node
  ]

  -- The rounds on the nodes that are left, the first of them beside `empty_tree()[level]`.
  unfoldable pub compress_loop : ℕ → List Node → List Bool × List ComputedNode
  compress_loop level [] = ([], [])
  compress_loop level (n ∷ ns) =
      let (bits, nodes) = compress_loop (level - 1) ns in
      if is_equal_node n (empty_tree level)
      then (true ∷ bits, nodes)
      else (false ∷ bits, record { hash = node_hash n; sum = node_sum n } ∷ nodes)

  unfoldable pub compress : Proof → CompressedProof
  unfolding compress_loop
  compress p =
      let (bits, nodes) = compress_loop max_tree_levels p.nodes in
      record { bits = bits; nodes = nodes }

  unfoldable pub decompress_loop : ℕ → List Bool → List ComputedNode → Result (List Node) ProofError
  decompress_loop level [] [] = ok []
  decompress_loop level [] (n ∷ ns) = err (unused_nodes (length (n ∷ ns)))
  decompress_loop level (true ∷ bits) nodes = do
    rest ← decompress_loop (level - 1) bits nodes
    ok (empty_tree level ∷ rest)
  decompress_loop level (false ∷ bits) [] = err (too_few_nodes (max_tree_levels - level))
  decompress_loop level (false ∷ bits) (n ∷ ns) = do
    rest ← decompress_loop (level - 1) bits ns
    ok (computed n ∷ rest)

  -- The loop runs over the 256 bits, so the assertion of `Proof::new` holds of its result.
  unfoldable pub decompress : CompressedProof → Result Proof ProofError
  unfolding decompress_loop
  decompress p = do
    nodes ← decompress_loop max_tree_levels p.bits p.nodes
    ok (record { nodes = nodes })
