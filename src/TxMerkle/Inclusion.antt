-- ===== src/TxMerkle/Inclusion.antt =====
-- The proof that is built for a transaction verifies against the root that is computed.
use rust_tap.Common.{ℕ, zero, suc, ◌/◌, ◌≤◌, ◌<◌, ◌≡◌, ◌∙◌, refl, ap, arith, true}
use rust_tap.Common.{Bool-cases, inl, inr, some, List, [], ltb, length, get_or}
use rust_tap.Common.{bytes_eq_refl}
use rust_tap.Mssmt.Hashing.{Sha256}
use rust_tap.TxMerkle.{Hash32, TxMerkleProof, pad, pair_up, build_loop, root_level, climb, verify}
use rust_tap.TxMerkle.{build_tx_merkle_proof, compute_merkle_root}
use rust_tap.TxMerkle.Levels.{length-pad, length-pair_up, climb_once-pair_up}

module _ ⦃sha256d : Sha256⦄ where
  climb-build_loop :
      (fuel : ℕ) (level : List Hash32) (index : ℕ)
      → index < length level
      → length level ≤ suc fuel
      → climb
          (get_or level index [])
          (build_loop fuel level index).0
          (build_loop fuel level index).1
        ≡ get_or (root_level fuel level) 0 []
  unfolding build_loop root_level climb
  climb-build_loop zero level index h k = ap (λ n. get_or level n []) (omega arith)
  climb-build_loop (suc fuel) level index h k = elim (Bool-cases (ltb 1 (length level))) [
    | inr e ↦ let first : index ≡ 0 = ground arith in rw e (ap (λ n. get_or level n []) first)
    | inl e ↦
        let size = length-pair_up (pad level) in
        rw e (
          ap
            (λ c.
              climb c (build_loop fuel (pair_up (pad level)) (index / 2)).0
                (build_loop fuel (pair_up (pad level)) (index / 2)).1)
            (climb_once-pair_up level index h)
          ∙ climb-build_loop fuel (pair_up (pad level)) (index / 2)
              (omega (arith, size, length-pad level)) (omega (arith, size, length-pad level)))
  ]

  build_loop-lengths :
      (fuel : ℕ) (level : List Hash32) (index : ℕ)
      → length (build_loop fuel level index).0 ≡ length (build_loop fuel level index).1
  unfolding build_loop
  build_loop-lengths zero level index = refl
  build_loop-lengths (suc fuel) level index =
      ground (arith, build_loop-lengths fuel (pair_up (pad level)) (index / 2))

  -- For every block and every index into it, a proof is built, and it verifies for the
  -- transaction at that index against the block's Merkle root.
  pub verify-build_tx_merkle_proof :
      (tx_hashes : List Hash32) (tx_index : ℕ)
      → tx_index < length tx_hashes
      → (p : TxMerkleProof) × (build_tx_merkle_proof tx_hashes tx_index ≡ some p)
        × (verify p (get_or tx_hashes tx_index []) (compute_merkle_root tx_hashes) ≡ true)
  unfolding build_tx_merkle_proof compute_merkle_root verify
  verify-build_tx_merkle_proof tx_hashes tx_index h =
      let loop = build_loop (length tx_hashes) tx_hashes tx_index in
      let same = climb-build_loop (length tx_hashes) tx_hashes tx_index h (omega arith) in
      (
        record { nodes = loop.0; bits = loop.1 },
        ground arith,
        ground (
          arith,
          same,
          build_loop-lengths (length tx_hashes) tx_hashes tx_index,
          bytes_eq_refl (get_or (root_level (length tx_hashes) tx_hashes) 0 []),
        ),
      )
