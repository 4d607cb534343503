-- ===== src/Vm/Engine.antt =====
-- tap-primitives/src/vm/mod.rs: the engine.
use rust_tap.Common.{ℕ, ◌+◌, Bool, true, false, not, ◌&&◌, ◌||◌, Option, none, some}
use rust_tap.Common.{
  List, [], ◌∷◌, Result, ok, err, ensure, ok_or, ◌>>=◌, ◌>>◌, ltb, ◌==◌, if◌then◌else◌, length,
  bytes_eq,
}
use rust_tap.Mint.Interface.{AssetType, normal, collectible}
use rust_tap.Mssmt.Hashing.{Sha256}
use rust_tap.Mssmt.Node.{computed}
unfoldable use rust_tap.Mssmt.Proof.{verify_merkle_proof}
use rust_tap.Vm.{
  Asset, PrevId, Witness, GroupKey, InputSet, SplitAsset, SplitLocator, Virtual, VmError, is_set,
  said, collectible_inputs, script_path_group,
}
use rust_tap.Vm.{
  invalid_genesis_state_transition, no_inputs, amount_mismatch, invalid_split_asset_type,
  no_split_commitment, invalid_split_commitment_witness, invalid_split_commitment_proof,
}
use rust_tap.Vm.{
  invalid_root_asset, invalid_transfer_witness, script_key_mismatch, id_mismatch, type_mismatch,
  invalid_script_version, witness_validation_failed,
}
unfoldable use rust_tap.Vm.{
  has_genesis_witness, has_genesis_witness_for_group, has_split_commitment_witness, prev_asset_at,
  locator_hash, asset_to_leaf, is_unspendable, is_script_path_witness,
}

abbrev pub same_type : AssetType → AssetType → Bool
same_type normal normal = true
same_type collectible collectible = true
same_type _ _ = false

-- `map_err` into one of the errors with a text.
abbrev pub map_text {ℓ} : {A : Type ℓ} → (List ℕ → VmError) → Result A (List ℕ) → Result A VmError
map_text f (ok a) = ok a
map_text f (err e) = err (f e)

abbrev pub transfer_fault : List ℕ → VmError
transfer_fault text = invalid_transfer_witness (said text)

abbrev pub witness_fault : List ℕ → VmError
witness_fault text = witness_validation_failed (said text)

abbrev pub first_of {ℓ} : {A : Type ℓ} → List A → Option A
first_of [] = none
first_of (a ∷ rest) = some a

module _ ⦃sha256 : Sha256⦄ ⦃virtual : Virtual⦄ where
  abbrev pub groups_match : Option GroupKey → Option GroupKey → List ℕ → List ℕ → Bool
  groups_match (some gk) (some prev_gk) tag prev_tag =
      bytes_eq gk.group_pub_key prev_gk.group_pub_key && bytes_eq tag prev_tag
  groups_match _ _ tag prev_tag = false

  unfoldable pub matches_prev_genesis : PrevId → Option GroupKey → List ℕ → Asset → Bool
  matches_prev_genesis prev_id group_key tag prev_asset =
      bytes_eq prev_id.id (virtual.genesis_id prev_asset.genesis)
      || groups_match group_key prev_asset.group_key tag prev_asset.genesis.tag

  unfoldable pub matches_asset_params : Asset → Asset → PrevId → Result (Unit {0}) VmError
  unfolding matches_prev_genesis
  matches_asset_params new_asset prev_asset prev_id = do
    ensure (bytes_eq prev_id.script_key prev_asset.script_key.pub_key) script_key_mismatch
    ensure (matches_prev_genesis prev_id new_asset.group_key new_asset.genesis.tag prev_asset)
        id_mismatch
    ensure (same_type new_asset.genesis.asset_type prev_asset.genesis.asset_type) type_mismatch

  abbrev sig_hash_of : Result virtual.SigHashType (List ℕ) → virtual.SigHashType
  sig_hash_of (ok t) = t
  sig_hash_of (err e) = virtual.default_sig_hash

  -- The type in the first element of the witness; the default if it is missing or malformed.
  unfoldable pub sig_hash_type : Witness → virtual.SigHashType
  sig_hash_type w = elim w.tx_witness [
    | [] ↦ virtual.default_sig_hash
    | ◌∷◌ sig rest ↦ sig_hash_of (virtual.taproot_witness_sig_hash_type sig)
  ]

  pub record Engine : Type 0 where
    pub new_asset : Asset
    pub split_assets : List SplitAsset
    pub prev_assets : InputSet

  -- `none` stands for the index out of range, which the caller has excluded.
  unfoldable pub validate_group_genesis_witness : Engine → Result (Unit {0}) VmError
  unfolding is_script_path_witness sig_hash_type
  validate_group_genesis_witness e = do
    witness ← ok_or (first_of e.new_asset.prev_witnesses) no_inputs
    group_key ← ok_or e.new_asset.group_key invalid_genesis_state_transition
    ensure (not (is_script_path_witness witness.tx_witness))
        (witness_validation_failed script_path_group)
    (base_tx, hash, sum) ← map_text transfer_fault (virtual.virtual_tx e.new_asset [])
    sighash ←
        map_text witness_fault (
          virtual.input_group_genesis_key_spend_sighash base_tx e.new_asset (sig_hash_type witness))
    let group_prev = record e.new_asset {
      script_key = record { pub_key = group_key.group_pub_key; tweaked = none };
    }
    virtual.validate_witness sighash witness group_prev

  abbrev pub strip_first : List Witness → List Witness
  strip_first [] = []
  strip_first (w ∷ rest) = record w { split_commitment = none } ∷ rest

  -- The split without its commitment, with the lock times of the root asset.
  unfoldable pub split_no_witness : Asset → Asset → Asset
  split_no_witness root split = record split {
    prev_witnesses = strip_first split.prev_witnesses;
    lock_time = root.lock_time;
    relative_lock_time = root.relative_lock_time;
  }

  unfoldable pub locator_of : SplitAsset → SplitLocator
  locator_of s = record {
    locator_output_index = s.output_index;
    locator_asset_id = virtual.genesis_id s.asset.genesis;
    locator_script_key = s.asset.script_key.pub_key;
    locator_amount = s.asset.amount;
  }

  unfoldable pub validate_split : Engine → SplitAsset → Result (Unit {0}) VmError
  unfolding has_split_commitment_witness prev_asset_at matches_asset_params is_unspendable
      split_no_witness asset_to_leaf locator_of locator_hash verify_merkle_proof
  validate_split e s = do
    ensure (same_type e.new_asset.genesis.asset_type s.asset.genesis.asset_type)
        invalid_split_asset_type
    (root_hash, root_sum) ← ok_or e.new_asset.split_commitment_root no_split_commitment
    ensure (has_split_commitment_witness s.asset) invalid_split_commitment_witness
    root_witness ← ok_or (first_of e.new_asset.prev_witnesses) no_inputs
    root_prev_id ← ok_or root_witness.prev_id no_inputs
    prev_asset ← ok_or (prev_asset_at root_prev_id e.prev_assets) no_inputs
    matches_asset_params s.asset prev_asset root_prev_id
    ensure (not (e.new_asset.amount == 0) || is_unspendable e.new_asset) invalid_root_asset
    ensure (not (s.asset.amount == 0) || is_unspendable s.asset) invalid_root_asset
    split_witness ← ok_or (first_of s.asset.prev_witnesses) invalid_split_commitment_witness
    commitment ← ok_or split_witness.split_commitment invalid_split_commitment_witness
    split_leaf ← map_text transfer_fault (asset_to_leaf (split_no_witness e.new_asset s.asset))
    ensure
        (verify_merkle_proof (locator_hash (locator_of s)) split_leaf commitment.proof
          (computed (record { hash = root_hash; sum = root_sum })))
        invalid_split_commitment_proof

  unfoldable pub validate_splits : Engine → List SplitAsset → Result (Unit {0}) VmError
  unfolding validate_split
  validate_splits e [] = ok tt
  validate_splits e (s ∷ rest) = do validate_split e s; validate_splits e rest

  -- The spend of an input, by its script or by its key.
  unfoldable pub validate_spend :
      Engine → virtual.Transaction → ℕ → Witness → Asset → Result (Unit {0}) VmError
  unfolding is_script_path_witness sig_hash_type
  validate_spend e base_tx idx witness prev_asset =
      if is_script_path_witness witness.tx_witness
      then (do
        prev_out ← map_text witness_fault (virtual.input_prev_out prev_asset)
        virtual.validate_script_spend
            (virtual.virtual_tx_with_input base_tx e.new_asset.lock_time
              e.new_asset.relative_lock_time idx witness.tx_witness)
            prev_out witness prev_asset)
      else (do
        sighash ← map_text witness_fault (
            virtual.input_key_spend_sighash base_tx prev_asset e.new_asset idx
              (sig_hash_type witness))
        virtual.validate_witness sighash witness prev_asset)

  unfoldable pub validate_input :
      Engine → virtual.Transaction → ℕ → Witness → Result (Unit {0}) VmError
  unfolding prev_asset_at matches_asset_params validate_spend
  validate_input e base_tx idx witness = do
    prev_id ← ok_or witness.prev_id no_inputs
    prev_asset ← ok_or (prev_asset_at prev_id e.prev_assets) no_inputs
    matches_asset_params e.new_asset prev_asset prev_id
    ensure (prev_asset.script_version == 0) invalid_script_version
    validate_spend e base_tx idx witness prev_asset

  -- The loop over the witnesses, from the index `idx` on.
  unfoldable pub validate_inputs :
      Engine → virtual.Transaction → ℕ → List Witness → Result (Unit {0}) VmError
  unfolding validate_input
  validate_inputs e base_tx idx [] = ok tt
  validate_inputs e base_tx idx (w ∷ rest) = do
    validate_input e base_tx idx w
    validate_inputs e base_tx (idx + 1) rest

  unfoldable pub validate_state_transition : Engine → Result (Unit {0}) VmError
  unfolding validate_inputs
  validate_state_transition e = do
    ensure (not (length e.new_asset.prev_witnesses == 0)) no_inputs
    ensure
        (not (
          same_type e.new_asset.genesis.asset_type collectible
          && ltb 1 (length e.new_asset.prev_witnesses)))
        (invalid_transfer_witness collectible_inputs)
    (base_tx, root_hash, root_sum) ←
        map_text transfer_fault (virtual.virtual_tx e.new_asset e.prev_assets)
    ensure (root_sum == virtual.output_value base_tx)
        (amount_mismatch root_sum (virtual.output_value base_tx))
    validate_inputs e base_tx 0 e.new_asset.prev_witnesses

  abbrev pub no_parts : Engine → Bool
  no_parts e = length e.split_assets == 0 && length e.prev_assets == 0

  unfoldable pub execute : Engine → Result (Unit {0}) VmError
  unfolding has_genesis_witness has_genesis_witness_for_group validate_group_genesis_witness
      validate_splits validate_state_transition
  execute e =
      if has_genesis_witness e.new_asset
      then ensure (no_parts e && not (is_set e.new_asset.group_key))
          invalid_genesis_state_transition
      else if has_genesis_witness_for_group e.new_asset
      then ensure (no_parts e) invalid_genesis_state_transition >> validate_group_genesis_witness e
      else validate_splits e e.split_assets >> validate_state_transition e
