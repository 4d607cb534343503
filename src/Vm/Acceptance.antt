-- ===== src/Vm/Acceptance.antt =====
-- The engine accepts what has been shown all that it asks for.
use rust_tap.Common.{ℕ, ◌+◌, ◌≤◌, ◌≡◌, refl, ap, ◌∙◌, arith, true, false, ◌&&◌, ◌⊎◌, inl, inr}
use rust_tap.Mint.Interface.{AssetType, normal, collectible}
use rust_tap.Common.{
  List, [], ◌∷◌, Result, ok, ensure, ok_or, ◌>>=◌, ◌>>◌, ltb, ◌==◌, length, All, ◌↔◌, bind_ok,
}
use rust_tap.Mssmt.Hashing.{Sha256}
use rust_tap.Vm.{
  Asset, PrevId, Witness, SplitAsset, Virtual, VmError, prev_asset_at, no_inputs,
  invalid_script_version, has_genesis_witness, has_genesis_witness_for_group,
}
unfoldable use rust_tap.Vm.Engine.{
  validate_spend, validate_splits, validate_input, validate_inputs, validate_state_transition,
  execute,
}
use rust_tap.Vm.Engine.{Engine, matches_asset_params, same_type}
use rust_tap.Vm.Matching.{matches_asset_params-ok}
use rust_tap.Vm.SplitChecks.{IsSplit, validate_split-ok}
use rust_tap.Vm.Transition.{
  IsScriptSpend, IsKeySpend, IsValidInput, AllValidInputs, IsTransition, execute-IsTransition,
}

module _ ⦃sha256 : Sha256⦄ ⦃virtual : Virtual⦄ where
  validate_spend-ok :
      (e : Engine) (tx : virtual.Transaction) (idx : ℕ) (w : Witness) (prev_asset : Asset)
      → IsScriptSpend e tx idx w prev_asset ⊎ IsKeySpend e tx idx w prev_asset
      → validate_spend e tx idx w prev_asset ≡ ok tt
  unfolding validate_spend
  validate_spend-ok e tx idx w prev_asset (inl h) = rw (h.by_script, h.spent) h.accepted
  validate_spend-ok e tx idx w prev_asset (inr h) = rw (h.by_key, h.hashed) h.accepted

  validate_input-ok :
      (e : Engine) (tx : virtual.Transaction) (idx : ℕ) (w : Witness)
      → IsValidInput e tx idx w
      → validate_input e tx idx w ≡ ok tt
  unfolding validate_input
  validate_input-ok e tx idx w h =
      let spend : Asset → Result (Unit {0}) VmError = λ a. validate_spend e tx idx w a in
      let check : PrevId → Asset → Result (Unit {0}) VmError = λ p a.
        matches_asset_params e.new_asset a p
        >> (ensure (a.script_version == 0) invalid_script_version >> spend a) in
      let look : PrevId → Result (Unit {0}) VmError =
        λ p. ok_or (prev_asset_at p e.prev_assets) no_inputs >>= check p in
      bind_ok (ok_or w.prev_id no_inputs) look h.prev_id (ap (λ o. ok_or o no_inputs) h.named)
      ∙ bind_ok (ok_or (prev_asset_at h.prev_id e.prev_assets) no_inputs) (check h.prev_id)
          h.prev_asset (ap (λ o. ok_or o no_inputs) h.present)
      ∙ bind_ok (matches_asset_params e.new_asset h.prev_asset h.prev_id)
          (λ _.
            ensure (h.prev_asset.script_version == 0) invalid_script_version >> spend h.prev_asset)
          tt (matches_asset_params-ok e.new_asset h.prev_asset h.prev_id h.matching)
      ∙ bind_ok (ensure (h.prev_asset.script_version == 0) invalid_script_version)
          (λ _. spend h.prev_asset) tt (ap (λ n. ensure (n == 0) invalid_script_version) h.version)
      ∙ validate_spend-ok e tx idx w h.prev_asset h.authorised

  validate_inputs-ok :
      (e : Engine) (tx : virtual.Transaction) (idx : ℕ) (ws : List Witness)
      → AllValidInputs e tx idx ws
      → validate_inputs e tx idx ws ≡ ok tt
  unfolding validate_inputs
  validate_inputs-ok e tx idx [] h = refl
  validate_inputs-ok e tx idx (w ∷ rest) (h, hs) =
      rw (validate_input-ok e tx idx w h) (validate_inputs-ok e tx (idx + 1) rest hs)

  validate_splits-ok :
      (e : Engine) (splits : List SplitAsset)
      → All (IsSplit e) splits
      → validate_splits e splits ≡ ok tt
  unfolding validate_splits
  validate_splits-ok e [] hs = refl
  validate_splits-ok e (s ∷ rest) (h, hs) =
      rw (validate_split-ok e s h) (validate_splits-ok e rest hs)

  same_number : (n : ℕ) → (n == n) ≡ true
  same_number n = ground arith

  not_too_many :
      (kind : AssetType) (count : ℕ)
      → (kind ≡ collectible → count ≤ 1)
      → (same_type kind collectible && ltb 1 count) ≡ false
  not_too_many normal count h = refl
  not_too_many collectible count h = ground (arith, h refl)

  validate_state_transition-ok : (e : Engine) → IsTransition e → validate_state_transition e ≡ ok tt
  unfolding validate_state_transition
  validate_state_transition-ok e h =
      let some_input : (length e.new_asset.prev_witnesses == 0) ≡ false =
        ground (arith, h.spends) in
      let few =
        not_too_many e.new_asset.genesis.asset_type (length e.new_asset.prev_witnesses)
          h.one_collectible in
      rw (some_input, few, h.built, same_number (virtual.output_value h.base_tx))
        (validate_inputs-ok e h.base_tx 0 e.new_asset.prev_witnesses h.inputs)

  -- The engine accepts a transition that is not a genesis exactly when: there is an input, and for a
  -- collectible only one; the virtual transaction is built, with the sum of its inputs as the value of
  -- its output; every witness names an asset that is there, with the key that the witness names, the
  -- type of the new asset, script version 0, and the id that the witness names or else the group key
  -- and tag of the new asset, and the validator accepts its spend, by script or by key; and every split
  -- has the type of the new asset and one witness, with a commitment whose proof shows a leaf with its
  -- amount under its locator in the split root, it matches the asset that the first witness spends, and
  -- it and the new asset have the unspendable key when of amount 0.
  pub execute_iff :
      (e : Engine)
      → has_genesis_witness e.new_asset ≡ false
      → has_genesis_witness_for_group e.new_asset ≡ false
      → (execute e ≡ ok tt) ↔ IsTransition e
  unfolding execute
  execute_iff e no_genesis no_group = (
    λ h. execute-IsTransition e no_genesis no_group h,
    λ h.
        rw (no_genesis, no_group, validate_splits-ok e e.split_assets h.splits)
          (validate_state_transition-ok e h),
  )
