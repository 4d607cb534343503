-- ===== src/TxMerkle/Examples.antt =====
-- The theorems on block proofs at concrete inputs.
use rust_tap.Common.{
  ℕ, ◌≡◌, refl, arith, true, some, none, List, [], ◌∷◌, get_or, replicate, ◌⊎◌, bytes_eq,
}
use rust_tap.Mssmt.Hashing.{Collision}
use rust_tap.Mssmt.Toy.{toy_sha256, toy_digest}
use rust_tap.TxMerkle.{Hash32, TxMerkleProof, build_tx_merkle_proof, compute_merkle_root, verify}
use rust_tap.TxMerkle.{climb}
use rust_tap.TxMerkle.Inclusion.{verify-build_tx_merkle_proof}
use rust_tap.TxMerkle.Binding.{verify-binding}

abbrev tx : ℕ → Hash32
tx n = replicate 32 n

abbrev block : List Hash32
block = tx 1 ∷ tx 2 ∷ tx 3 ∷ []

no_proof : build_tx_merkle_proof block 3 ≡ none
unfolding build_tx_merkle_proof
no_proof = refl

single_root : compute_merkle_root (tx 7 ∷ []) ≡ tx 7
unfolding compute_merkle_root
single_root = refl

verify-build_tx_merkle_proof_example :
    (p : TxMerkleProof) × (build_tx_merkle_proof block 2 ≡ some p)
    × (verify p (get_or block 2 []) (compute_merkle_root block) ≡ true)
verify-build_tx_merkle_proof_example = verify-build_tx_merkle_proof block 2 (omega arith)

abbrev path : TxMerkleProof
path = record { nodes = tx 2 ∷ []; bits = true ∷ [] }

path_verifies : verify path (tx 1) (climb (tx 1) (tx 2 ∷ []) (true ∷ [])) ≡ true
unfolding verify toy_digest bytes_eq
path_verifies = refl

verify-binding_example : (tx 1 ≡ tx 1) ⊎ Collision toy_sha256
verify-binding_example =
    verify-binding path path (tx 1) (tx 1) (climb (tx 1) (tx 2 ∷ []) (true ∷ [])) refl refl refl
      (refl, tt) (refl, tt) path_verifies path_verifies
