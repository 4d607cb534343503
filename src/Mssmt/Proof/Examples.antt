-- ===== src/Mssmt/Proof/Examples.antt =====
-- The theorems on proofs at concrete inputs.
use rust_tap.Common.{ℕ, ◌^◌, ◌%◌, ◌+◌, ◌≡◌, refl, arith, true, false, [], ◌∷◌, ◌++◌}
use rust_tap.Common.{replicate, length, All, ok, ◌⊎◌}
use rust_tap.Mssmt.Hashing.{Collision}
use rust_tap.Mssmt.Toy.{toy_sha256}
use rust_tap.Mssmt.Node.{Key, LeafNode, ComputedNode, computed, node_sum, max_tree_levels}
use rust_tap.Mssmt.Proof.{Proof, CompressedProof, verify_merkle_proof, compress, decompress, encode}
use rust_tap.Mssmt.Proof.{decode, pack_bits, unpack_bits}
use rust_tap.Mssmt.Proof.Binding.{HasHash, IsValidProof, verify_merkle_proof-binding}
use rust_tap.Mssmt.Proof.Roots.{total, own_root, verify_merkle_proof-own_root}
use rust_tap.Mssmt.Proof.Roots.{verify_merkle_proof-decompress, verify_merkle_proof-sum}
use rust_tap.Mssmt.Proof.Wire.{IsValid, decode-encode}
use rust_tap.Mssmt.Proof.Bits.{unpack_bits-pack_bits}

abbrev key : Key
key = 5 ∷ 128 ∷ replicate 30 0

abbrev coin : LeafNode
coin = record { value = 1 ∷ 2 ∷ []; sum = 7 }

abbrev sibling : ComputedNode
sibling = record { hash = replicate 32 9; sum = 4 }

abbrev siblings : Proof
siblings = record { nodes = replicate 256 (computed sibling) }

replicate-HasHash : (k : ℕ) → All HasHash (replicate k (computed sibling))
replicate-HasHash ℕ.zero = tt
replicate-HasHash (ℕ.suc k) = (refl, replicate-HasHash k)

siblings-IsValidProof : IsValidProof siblings
siblings-IsValidProof = record { count = refl; hashes = replicate-HasHash 256 }

accepted : verify_merkle_proof key coin siblings (own_root key coin siblings) ≡ true
accepted = verify_merkle_proof-own_root key coin siblings refl

verify_merkle_proof-binding_example : (coin ≡ coin) ⊎ Collision toy_sha256
verify_merkle_proof-binding_example =
    verify_merkle_proof-binding key coin coin siblings siblings (own_root key coin siblings)
      siblings-IsValidProof siblings-IsValidProof (omega arith) (omega arith) accepted accepted

verify_merkle_proof-decompress_example :
    (q : Proof) × (decompress (compress siblings) ≡ ok q)
    × (length q.nodes ≡ max_tree_levels)
    × (verify_merkle_proof key coin q (computed sibling)
        ≡ verify_merkle_proof key coin siblings (computed sibling))
verify_merkle_proof-decompress_example =
    verify_merkle_proof-decompress siblings key coin (computed sibling) refl

verify_merkle_proof-sum_example :
    node_sum (own_root key coin siblings) ≡ (7 + total siblings.nodes) % 2 ^ 64
verify_merkle_proof-sum_example =
    verify_merkle_proof-sum key coin siblings (own_root key coin siblings) refl accepted

-- All but the first two nodes left out.
abbrev small : CompressedProof
small = record { bits = false ∷ false ∷ replicate 254 true; nodes = sibling ∷ sibling ∷ [] }

small-IsValid : IsValid small
small-IsValid = record {
  bits = refl;
  count = omega arith;
  nodes =
      (record { hash = refl; sum = omega arith }, (record { hash = refl; sum = omega arith }, tt));
}

decode-encode_example : decode (encode small ++ (9 ∷ [])) ≡ ok small
decode-encode_example = decode-encode small (9 ∷ []) small-IsValid

bits_survive :
    unpack_bits (pack_bits (false ∷ false ∷ replicate 254 true))
    ≡ false ∷ false ∷ replicate 254 true
bits_survive = unpack_bits-pack_bits (false ∷ false ∷ replicate 254 true) refl
