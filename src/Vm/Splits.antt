-- ===== src/Vm/Splits.antt =====
-- Splits that the engine accepts, and the root of the split commitment.
use rust_tap.Common.{ℕ, ◌<◌, ◌^◌, ◌≡◌, sym, ap, ◌∙◌, true, ◌⊎◌, inl, inr, Option, some, subst}
use rust_tap.Common.{List, ok}
use rust_tap.Mssmt.Hashing.{Sha256, Collision}
use rust_tap.Mssmt.Node.{NodeHash, LeafNode}
use rust_tap.Mssmt.Proof.{verify_merkle_proof}
use rust_tap.Mssmt.Proof.Binding.{IsValidProof, verify_merkle_proof-binding}
use rust_tap.Vm.{Witness, SplitCommitmentWitness, SplitAsset, Virtual, locator_hash}
use rust_tap.Vm.Engine.{Engine, first_of, validate_split, split_no_witness, locator_of}
use rust_tap.Vm.SplitChecks.{root_of, validate_split-IsSplit}

some_injective {ℓ} : {A : Type ℓ} {a b : A} → ◌≡◌ {A = Option A} (some a) (some b) → a ≡ b
some_injective e = cc e

triple :
    {A B C : Type 0} {a a' : A} {b b' : B} {c c' : C}
    → a ≡ a'
    → b ≡ b'
    → c ≡ c'
    → ◌≡◌ {A = A × B × C} (a, b, c) (a', b', c')
triple p q r = cc (p, q, r)

module _ ⦃sha256 : Sha256⦄ ⦃virtual : Virtual⦄ where
  -- Two splits that `validate_split` accepts for one new asset and that have one locator hash, that of
  -- their output index, asset id and key, have the same amount and the same bytes in their leaves, or
  -- show a SHA-256 collision: where their proofs are of 256 nodes with 32-byte hashes, and their
  -- amounts are u64s. An output cannot be claimed with two amounts.
  pub validate_split-binding :
      (e : Engine) (s t : SplitAsset) (v w : Witness) (c d : SplitCommitmentWitness)
      → validate_split e s ≡ ok tt
      → validate_split e t ≡ ok tt
      → locator_hash (locator_of s) ≡ locator_hash (locator_of t)
      → first_of s.asset.prev_witnesses ≡ some v
      → first_of t.asset.prev_witnesses ≡ some w
      → v.split_commitment ≡ some c
      → w.split_commitment ≡ some d
      → IsValidProof c.proof
      → IsValidProof d.proof
      → s.asset.amount < 2 ^ 64
      → t.asset.amount < 2 ^ 64
      → ((s.asset.amount ≡ t.asset.amount)
          × (virtual.encode_asset_leaf (split_no_witness e.new_asset s.asset)
              ≡ virtual.encode_asset_leaf (split_no_witness e.new_asset t.asset)))
        ⊎ Collision sha256
  validate_split-binding e s t v w c d hs ht same fv fw cv cw vc vd sm sn =
      let a = validate_split-IsSplit e s hs in
      let b = validate_split-IsSplit e t ht in
      let root : a.root ≡ b.root = some_injective (sym a.rooted ∙ b.rooted) in
      let av : a.witness ≡ v = some_injective (sym (ap first_of a.sole) ∙ fv) in
      let bw : b.witness ≡ w = some_injective (sym (ap first_of b.sole) ∙ fw) in
      let ac : a.commitment ≡ c =
        some_injective (sym a.committed ∙ ap (λ (x : Witness). x.split_commitment) av ∙ cv) in
      let bd : b.commitment ≡ d =
        some_injective (sym b.committed ∙ ap (λ (x : Witness). x.split_commitment) bw ∙ cw) in
      let key = locator_hash (locator_of t) in
      let m : LeafNode = record { value = a.encoded; sum = s.asset.amount } in
      let n : LeafNode = record { value = b.encoded; sum = t.asset.amount } in
      let left : verify_merkle_proof key m c.proof (root_of b.root) ≡ true =
        subst
          (λ (x : List ℕ × SplitCommitmentWitness × (NodeHash × ℕ)).
            verify_merkle_proof x.0 m x.1.proof (root_of x.2) ≡ true)
          (triple same ac root) a.included in
      let right : verify_merkle_proof key n d.proof (root_of b.root) ≡ true =
        subst
          (λ (x : SplitCommitmentWitness).
            verify_merkle_proof key n x.proof (root_of b.root) ≡ true)
          bd b.included in
      elim (verify_merkle_proof-binding key m n c.proof d.proof (root_of b.root) vc vd sm sn left
        right) [
          | inr broken ↦ inr broken
          | inl leaf ↦ inl (
            ap (λ (x : LeafNode). x.sum) leaf,
            a.made ∙ ap (λ (x : LeafNode). ok x.value) leaf ∙ sym b.made,
          )
        ]
