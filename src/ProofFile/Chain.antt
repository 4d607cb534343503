-- ===== src/ProofFile/Chain.antt =====
-- The hash chain of a proof file: appending extends it, and its last hash binds all the proofs.
use rust_tap.Common.{ℕ, ◌≡◌, ◌⊎◌, inl, inr, refl, sym, ◌∙◌, arith, true}
use rust_tap.Common.{List, [], ◌∷◌, ◌++◌, length, bytes_eq→eq, bytes_eq_refl, append_cancel}
use rust_tap.Mssmt.Hashing.{Sha256, Collision, eq_or_Collision}
use rust_tap.Mssmt.Node.{NodeHash}
use rust_tap.ProofFile.{File, HashedProof, zero_hash, hash_or_zero}
unfoldable use rust_tap.ProofFile.{
  compute_proof_hash, append_proof, chain_holds, verify_hash_chain, last_of_proofs, last_proof,
}

module _ ⦃sha256 : Sha256⦄ where
  -- The hash that the chain ends with.
  abbrev pub end_hash : NodeHash → List HashedProof → NodeHash
  end_hash h [] = h
  end_hash h (p ∷ rest) = end_hash p.hash rest

  end_hash-last_of_proofs :
      (p : HashedProof) (rest : List HashedProof) (h : NodeHash)
      → end_hash h (p ∷ rest) ≡ hash_or_zero (last_of_proofs (p ∷ rest))
  unfolding last_of_proofs
  end_hash-last_of_proofs p [] h = refl
  end_hash-last_of_proofs p (q ∷ rest) h = end_hash-last_of_proofs q rest h

  zero_end : (ps : List HashedProof) → end_hash zero_hash ps ≡ hash_or_zero (last_of_proofs ps)
  unfolding last_of_proofs
  zero_end [] = refl
  zero_end (p ∷ rest) = end_hash-last_of_proofs p rest zero_hash

  chain_holds-append :
      (h : NodeHash) (ps : List HashedProof) (b : List ℕ)
      → chain_holds h ps ≡ true
      → chain_holds h
          (ps ++ (record { proof_bytes = b; hash = compute_proof_hash (end_hash h ps) b } ∷ []))
        ≡ true
  unfolding chain_holds
  chain_holds-append h [] b e = ground (arith, bytes_eq_refl (compute_proof_hash h b))
  chain_holds-append h (p ∷ rest) b e = ground (arith, chain_holds-append p.hash rest b)

  -- Appending any proof to a file whose hash chain holds gives a file whose hash chain holds.
  pub verify_hash_chain-append_proof :
      (f : File) (proof_bytes : List ℕ)
      → verify_hash_chain f ≡ true
      → verify_hash_chain (append_proof f proof_bytes) ≡ true
  unfolding verify_hash_chain append_proof
  verify_hash_chain-append_proof f b h =
      rw (zero_end f.proofs) at (chain_holds-append zero_hash f.proofs b h)

  pub chain_holds_parts :
      (h : NodeHash) (p : HashedProof) (rest : List HashedProof)
      → chain_holds h (p ∷ rest) ≡ true
      → (p.hash ≡ compute_proof_hash h p.proof_bytes) × (chain_holds p.hash rest ≡ true)
  unfolding chain_holds
  chain_holds_parts h p rest e =
      ground (arith, bytes_eq→eq p.hash (compute_proof_hash h p.proof_bytes))

  abbrev pub IsHash : NodeHash → Type 0
  IsHash h = length h ≡ 32

  pub link_IsHash :
      (h : NodeHash) (b : List ℕ) (k : NodeHash) → k ≡ compute_proof_hash h b → IsHash k
  unfolding compute_proof_hash
  link_IsHash h b k e = rw e (sha256.length-digest (h ++ b))

  link_injective :
      (h h' : NodeHash) (b b' : List ℕ)
      → IsHash h
      → IsHash h'
      → compute_proof_hash h b ≡ compute_proof_hash h' b'
      → ((h ≡ h') × (b ≡ b')) ⊎ Collision sha256
  unfolding compute_proof_hash
  link_injective h h' b b' hh hh' e = elim (eq_or_Collision sha256 (h ++ b) (h' ++ b') e) [
    | inl same ↦ inl (append_cancel h h' b b' (hh ∙ sym hh') same)
    | inr c ↦ inr c
  ]

  chain_binding :
      (h h' : NodeHash) (ps qs : List HashedProof)
      → IsHash h
      → IsHash h'
      → length ps ≡ length qs
      → chain_holds h ps ≡ true
      → chain_holds h' qs ≡ true
      → end_hash h ps ≡ end_hash h' qs
      → ((h ≡ h') × (ps ≡ qs)) ⊎ Collision sha256
  chain_binding h h' [] [] hh hh' n e e' same = inl (same, refl)
  chain_binding h h' [] (q ∷ qs) hh hh' n e e' same = absurd (omega (arith, n))
  chain_binding h h' (p ∷ ps) [] hh hh' n e e' same = absurd (omega (arith, n))
  chain_binding h h' (p ∷ ps) (q ∷ qs) hh hh' n e e' same =
      let (k, f) = chain_holds_parts h p ps e in
      let (k', f') = chain_holds_parts h' q qs e' in
      elim (chain_binding p.hash q.hash ps qs (link_IsHash h p.proof_bytes p.hash k)
        (link_IsHash h' q.proof_bytes q.hash k') (omega (arith, n)) f f' same) [
          | inr c ↦ inr c
          | inl (hash, rest) ↦
              elim (link_injective h h' p.proof_bytes q.proof_bytes hh hh' (sym k ∙ hash ∙ k')) [
                | inr c ↦ inr c
                | inl (before, proof) ↦ inl (before, cc (hash, rest, proof))
              ]
        ]

  -- Two files of equally many proofs whose hash chains hold and end in the same hash have the same
  -- proofs, or show a SHA-256 collision.
  pub verify_hash_chain-binding :
      (f g : File)
      → length f.proofs ≡ length g.proofs
      → verify_hash_chain f ≡ true
      → verify_hash_chain g ≡ true
      → hash_or_zero (last_proof f) ≡ hash_or_zero (last_proof g)
      → (f.proofs ≡ g.proofs) ⊎ Collision sha256
  unfolding verify_hash_chain last_proof
  verify_hash_chain-binding f g n e e' same =
      elim (chain_binding zero_hash zero_hash f.proofs g.proofs refl refl n e e'
        (zero_end f.proofs ∙ same ∙ sym (zero_end g.proofs))) [
          | inl (_, proofs) ↦ inl proofs
          | inr c ↦ inr c
        ]
