-- ===== src/Vm/SplitChecks.antt =====
-- What a split that the engine accepts has been shown, and that this is enough.
use rust_tap.Common.{ℕ, ◌≡◌, refl, sym, arith, true, false, not, ◌&&◌, ◌||◌, inl, inr, some, subst}
use rust_tap.Common.{
  List, [], ◌∷◌, Result, ok, ensure, ok_or, ◌>>=◌, ◌>>◌, ◌==◌, length, bytes_eq, bytes_eq→eq,
  Bool-cases, ==_iff,
}
use rust_tap.Common.{bind_parts, ensure_parts, ok_or-ok, ensure-ok, ok_injective}
use rust_tap.Mssmt.Hashing.{Sha256}
use rust_tap.Mssmt.Node.{NodeHash, LeafNode, Node, computed}
use rust_tap.Mssmt.Proof.{verify_merkle_proof}
use rust_tap.Vm.{
  Asset, PrevId, Witness, SplitCommitmentWitness, SplitAsset, Virtual, VmError, prev_asset_at,
  locator_hash,
}
unfoldable use rust_tap.Vm.{
  is_unspendable, is_split_commitment, has_split_commitment_witness, asset_to_leaf,
}
use rust_tap.Vm.{
  no_inputs, invalid_split_asset_type, no_split_commitment, invalid_split_commitment_witness,
  invalid_split_commitment_proof, invalid_root_asset,
}
use rust_tap.Vm.Engine.{
  Engine, same_type, map_text, transfer_fault, first_of, matches_asset_params, split_no_witness,
  locator_of,
}
unfoldable use rust_tap.Vm.Engine.{validate_split}
use rust_tap.Vm.Matching.{
  Matches, matches_asset_params-Matches, matches_asset_params-ok, then_parts, map_text-ok,
  same_type→eq, eq→same_type, eq→bytes_eq,
}

sole_of :
    (ws : List Witness) (w : Witness)
    → (elim ws [ [] ↦ false | ◌∷◌ v rest ↦ length rest == 0 && is_split_commitment v ]) ≡ true
    → first_of ws ≡ some w
    → ws ≡ w ∷ []
sole_of [] w h first = cc h
sole_of (v ∷ []) w h first = cc first
sole_of (v ∷ u ∷ rest) w h first = absurd (ground (arith, h))

module _ ⦃sha256 : Sha256⦄ ⦃virtual : Virtual⦄ where
  abbrev pub root_of : NodeHash × ℕ → Node
  root_of root = computed (record { hash = root.0; sum = root.1 })

  -- An asset of amount 0 has the key that nobody can spend with.
  abbrev pub IsSealedWhenZero : Asset → Type 0
  IsSealedWhenZero a = a.amount ≡ 0 → a.script_key.pub_key ≡ virtual.nums_key

  -- The split has the type of the new asset and one witness, with a commitment: a proof that its leaf,
  -- with its amount, stands under its locator in the split commitment of the new asset. It matches
  -- the asset that the first witness of the new asset spends, and the two are sealed when of amount 0.
  pub record IsSplit (e : Engine) (s : SplitAsset) : Type 0 where
    pub root : NodeHash × ℕ
    pub root_witness : Witness
    pub root_prev_id : PrevId
    pub prev_asset : Asset
    pub witness : Witness
    pub commitment : SplitCommitmentWitness
    pub encoded : List ℕ
    pub kind : e.new_asset.genesis.asset_type ≡ s.asset.genesis.asset_type
    pub rooted : e.new_asset.split_commitment_root ≡ some root
    pub sole : s.asset.prev_witnesses ≡ witness ∷ []
    pub committed : witness.split_commitment ≡ some commitment
    pub first : first_of e.new_asset.prev_witnesses ≡ some root_witness
    pub named : root_witness.prev_id ≡ some root_prev_id
    pub present : prev_asset_at root_prev_id e.prev_assets ≡ some prev_asset
    pub matching : Matches s.asset prev_asset root_prev_id
    pub root_spendable : IsSealedWhenZero e.new_asset
    pub split_spendable : IsSealedWhenZero s.asset
    pub made : virtual.encode_asset_leaf (split_no_witness e.new_asset s.asset) ≡ ok encoded
    pub included :
        verify_merkle_proof
          (locator_hash (locator_of s))
          (record { value = encoded; sum = s.asset.amount })
          commitment.proof
          (root_of root)
        ≡ true

  spendable_parts :
      (a : Asset) → (not (a.amount == 0) || is_unspendable a) ≡ true → IsSealedWhenZero a
  unfolding is_unspendable
  spendable_parts a h zero = elim (Bool-cases (bytes_eq a.script_key.pub_key virtual.nums_key)) [
    | inl same ↦ bytes_eq→eq _ _ same
    | inr other ↦ cc (rw (zero, other) at h)
  ]

  spendable_ok : (a : Asset) → IsSealedWhenZero a → (not (a.amount == 0) || is_unspendable a) ≡ true
  unfolding is_unspendable
  spendable_ok a h = elim (Bool-cases (a.amount == 0)) [
    | inl zero ↦ rw (zero, eq→bytes_eq _ _ (h ((==_iff a.amount 0).0 zero))) refl
    | inr more ↦ rw more refl
  ]

  sole_witness :
      (a : Asset) (w : Witness)
      → has_split_commitment_witness a ≡ true
      → first_of a.prev_witnesses ≡ some w
      → a.prev_witnesses ≡ w ∷ []
  unfolding has_split_commitment_witness
  sole_witness a w h first = sole_of a.prev_witnesses w h first

  asset_to_leaf_parts :
      (a : Asset) (leaf : LeafNode)
      → asset_to_leaf a ≡ ok leaf
      → (encoded : List ℕ) × (virtual.encode_asset_leaf a ≡ ok encoded)
        × (record { value = encoded; sum = a.amount } ≡ leaf)
  unfolding asset_to_leaf
  asset_to_leaf_parts a leaf e =
      let (encoded, made, e₁) =
        bind_parts (virtual.encode_asset_leaf a) (λ v. ok (record { value = v; sum = a.amount }))
          leaf e in
      (encoded, made, ok_injective e₁)

  module _ (e : Engine) (s : SplitAsset) where
    abbrev verify_leaf :
        NodeHash × ℕ → SplitCommitmentWitness → LeafNode → Result (Unit {0}) VmError
    verify_leaf root c leaf =
        ensure (verify_merkle_proof (locator_hash (locator_of s)) leaf c.proof (root_of root))
          invalid_split_commitment_proof

    abbrev with_commitment : NodeHash × ℕ → SplitCommitmentWitness → Result (Unit {0}) VmError
    with_commitment root c =
        map_text transfer_fault (asset_to_leaf (split_no_witness e.new_asset s.asset))
        >>= verify_leaf root c

    abbrev with_witness : NodeHash × ℕ → Witness → Result (Unit {0}) VmError
    with_witness root w =
        ok_or w.split_commitment invalid_split_commitment_witness >>= with_commitment root

    abbrev with_prev : NodeHash × ℕ → PrevId → Asset → Result (Unit {0}) VmError
    with_prev root p prev_asset =
        matches_asset_params s.asset prev_asset p
        >> (ensure (not (e.new_asset.amount == 0) || is_unspendable e.new_asset) invalid_root_asset
            >> (ensure (not (s.asset.amount == 0) || is_unspendable s.asset) invalid_root_asset
                >> (ok_or (first_of s.asset.prev_witnesses) invalid_split_commitment_witness
                    >>= with_witness root)))

    abbrev with_prev_id : NodeHash × ℕ → PrevId → Result (Unit {0}) VmError
    with_prev_id root p = ok_or (prev_asset_at p e.prev_assets) no_inputs >>= with_prev root p

    abbrev with_root_witness : NodeHash × ℕ → Witness → Result (Unit {0}) VmError
    with_root_witness root w = ok_or w.prev_id no_inputs >>= with_prev_id root

    abbrev with_root : NodeHash × ℕ → Result (Unit {0}) VmError
    with_root root =
        ensure (has_split_commitment_witness s.asset) invalid_split_commitment_witness
        >> (ok_or (first_of e.new_asset.prev_witnesses) no_inputs >>= with_root_witness root)

    pub validate_split-IsSplit : validate_split e s ≡ ok tt → IsSplit e s
    unfolding validate_split
    validate_split-IsSplit h =
        let (kind, h₁) =
          ensure_parts (same_type e.new_asset.genesis.asset_type s.asset.genesis.asset_type)
            invalid_split_asset_type
            (ok_or e.new_asset.split_commitment_root no_split_commitment >>= with_root) tt h in
        let (root, rooted, h₂) =
          bind_parts (ok_or e.new_asset.split_commitment_root no_split_commitment) with_root tt
            h₁ in
        let (has_one, h₃) =
          ensure_parts (has_split_commitment_witness s.asset) invalid_split_commitment_witness
            (ok_or (first_of e.new_asset.prev_witnesses) no_inputs >>= with_root_witness root) tt
            h₂ in
        let (root_witness, head, h₄) =
          bind_parts (ok_or (first_of e.new_asset.prev_witnesses) no_inputs)
            (with_root_witness root) tt h₃ in
        let (p, named, h₅) =
          bind_parts (ok_or root_witness.prev_id no_inputs) (with_prev_id root) tt h₄ in
        let (prev, present, h₆) =
          bind_parts (ok_or (prev_asset_at p e.prev_assets) no_inputs) (with_prev root p) tt h₅ in
        let (matching, h₇) = then_parts (matches_asset_params s.asset prev p) _ tt h₆ in
        let (root_spendable, h₈) =
          ensure_parts (not (e.new_asset.amount == 0) || is_unspendable e.new_asset)
            invalid_root_asset _ tt h₇ in
        let (split_spendable, h₉) =
          ensure_parts (not (s.asset.amount == 0) || is_unspendable s.asset) invalid_root_asset
            (ok_or (first_of s.asset.prev_witnesses) invalid_split_commitment_witness
              >>= with_witness root)
            tt h₈ in
        let (w, first, g₁) =
          bind_parts (ok_or (first_of s.asset.prev_witnesses) invalid_split_commitment_witness)
            (with_witness root) tt h₉ in
        let (c, committed, g₂) =
          bind_parts (ok_or w.split_commitment invalid_split_commitment_witness)
            (with_commitment root) tt g₁ in
        let (leaf, made, g₃) =
          bind_parts
            (map_text transfer_fault (asset_to_leaf (split_no_witness e.new_asset s.asset)))
            (verify_leaf root c) tt g₂ in
        let (encoded, made', leaf_is) =
          asset_to_leaf_parts (split_no_witness e.new_asset s.asset) leaf (
            map_text-ok transfer_fault (asset_to_leaf (split_no_witness e.new_asset s.asset)) leaf
              made) in
        record {
          root = root;
          root_witness = root_witness;
          root_prev_id = p;
          prev_asset = prev;
          witness = w;
          commitment = c;
          encoded = encoded;
          kind = same_type→eq _ _ kind;
          rooted = ok_or-ok e.new_asset.split_commitment_root no_split_commitment root rooted;
          sole =
              sole_witness s.asset w has_one (
                ok_or-ok (first_of s.asset.prev_witnesses) invalid_split_commitment_witness w
                  first);
          committed = ok_or-ok w.split_commitment invalid_split_commitment_witness c committed;
          first = ok_or-ok (first_of e.new_asset.prev_witnesses) no_inputs root_witness head;
          named = ok_or-ok root_witness.prev_id no_inputs p named;
          present = ok_or-ok (prev_asset_at p e.prev_assets) no_inputs prev present;
          matching = matches_asset_params-Matches s.asset prev p matching;
          root_spendable = spendable_parts e.new_asset root_spendable;
          split_spendable = spendable_parts s.asset split_spendable;
          made = made';
          included =
              subst
                (λ n.
                  verify_merkle_proof (locator_hash (locator_of s)) n c.proof (root_of root) ≡ true)
                (sym leaf_is)
                (ensure-ok
                  (verify_merkle_proof (locator_hash (locator_of s)) leaf c.proof (root_of root))
                  invalid_split_commitment_proof g₃);
        }

    has_split_ok :
        (w : Witness) (c : SplitCommitmentWitness)
        → s.asset.prev_witnesses ≡ w ∷ []
        → w.split_commitment ≡ some c
        → has_split_commitment_witness s.asset ≡ true
    unfolding has_split_commitment_witness is_split_commitment
    has_split_ok w c sole committed = rw (sole, committed) refl

    pub validate_split-ok : IsSplit e s → validate_split e s ≡ ok tt
    unfolding validate_split asset_to_leaf
    validate_split-ok h =
        rw
          (
            eq→same_type _ _ h.kind,
            h.rooted,
            has_split_ok h.witness h.commitment h.sole h.committed,
            h.first,
            h.named,
            h.present,
            matches_asset_params-ok s.asset h.prev_asset h.root_prev_id h.matching,
            spendable_ok e.new_asset h.root_spendable,
            spendable_ok s.asset h.split_spendable,
            h.made,
            h.sole,
            h.committed,
            h.included,
          )
          refl
