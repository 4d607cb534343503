-- ===== src/Mssmt/Node/Examples.antt =====
-- Tests of node.rs, and its theorem at a concrete input.
use rust_tap.Common.{◌≡◌, refl, arith, [], ◌∷◌, replicate}
use rust_tap.Mssmt.Toy.{toy_sha256}
use rust_tap.Mssmt.Node.{Key, LeafNode, leaf, branch, compacted, node_hash, node_sum, bit_index}
use rust_tap.Mssmt.Node.{new_compacted, extract}
use rust_tap.Mssmt.Node.Compaction.{node_hash-extract}

abbrev key : Key
key = 5 ∷ 128 ∷ replicate 30 0

abbrev coin : LeafNode
coin = record { value = 1 ∷ 2 ∷ []; sum = 7 }

key_bits :
    (bit_index 0 key ≡ 1) × (bit_index 1 key ≡ 0) × (bit_index 2 key ≡ 1) × (bit_index 15 key ≡ 1)
unfolding bit_index
key_bits = (refl, refl, refl, refl)

branch_wraps :
    node_sum (branch (leaf (record { value = []; sum = 0xffff_ffff_ffff_ffff })) (leaf coin)) ≡ 6
unfolding node_sum
branch_wraps = refl

node_hash-extract_example :
    (node_hash (compacted (new_compacted 250 key coin))
      ≡ node_hash (extract (new_compacted 250 key coin) 250))
    × (node_sum (compacted (new_compacted 250 key coin))
        ≡ node_sum (extract (new_compacted 250 key coin) 250))
node_hash-extract_example = node_hash-extract 250 key coin (omega arith)
