-- ===== src/Vm/Transition.antt =====
-- What a state transition that the engine accepts has been shown.
use rust_tap.Common.{
  ℕ, ◌+◌, ◌≤◌, ◌<◌, ◌≡◌, ap, ◌∙◌, arith, Bool, true, false, not, ◌&&◌, some, ◌⊎◌, inl, inr,
}
use rust_tap.Common.{
  List, [], ◌∷◌, Result, ok, ensure, ok_or, ◌>>=◌, ◌>>◌, ltb, ◌==◌, length, All, Bool-cases,
}
use rust_tap.Common.{bind_parts, ensure_parts, ok_or-ok, ==_iff}
use rust_tap.Mint.Interface.{AssetType, normal, collectible}
use rust_tap.Mssmt.Hashing.{Sha256}
use rust_tap.Mssmt.Node.{NodeHash}
use rust_tap.Vm.{
  Asset, PrevId, Witness, SplitAsset, Virtual, VmError, prev_asset_at, is_script_path_witness,
}
use rust_tap.Vm.{
  has_genesis_witness, has_genesis_witness_for_group, no_inputs, amount_mismatch,
  invalid_transfer_witness, collectible_inputs, invalid_script_version,
}
use rust_tap.Vm.Engine.{
  Engine, same_type, map_text, transfer_fault, witness_fault, matches_asset_params, sig_hash_type,
}
use rust_tap.Vm.Matching.{Matches, matches_asset_params-Matches, then_parts, map_text-ok}
use rust_tap.Vm.SplitChecks.{IsSplit, validate_split-IsSplit}
unfoldable use rust_tap.Vm.Engine.{
  validate_spend, validate_split, validate_splits, validate_input, validate_inputs,
  validate_state_transition, execute,
}

module _ ⦃sha256 : Sha256⦄ ⦃virtual : Virtual⦄ where
  -- The witness is that of a script, and the validator accepts it for the output of the input, in the
  -- virtual transaction with the lock times of the new asset and the stack of the witness.
  pub record IsScriptSpend (e : Engine) (tx : virtual.Transaction) (idx : ℕ) (witness : Witness)
      (prev_asset : Asset) : Type 0 where
    pub prev_out : virtual.TxOut
    pub by_script : is_script_path_witness witness.tx_witness ≡ true
    pub spent : virtual.input_prev_out prev_asset ≡ ok prev_out
    pub accepted :
        virtual.validate_script_spend
          (virtual.virtual_tx_with_input tx e.new_asset.lock_time e.new_asset.relative_lock_time idx
            witness.tx_witness)
          prev_out
          witness
          prev_asset
        ≡ ok tt

  -- The witness is that of a key, and the validator accepts it for the signature hash of the input.
  pub record IsKeySpend (e : Engine) (tx : virtual.Transaction) (idx : ℕ) (witness : Witness)
      (prev_asset : Asset) : Type 0 where
    pub sighash : List ℕ
    pub by_key : is_script_path_witness witness.tx_witness ≡ false
    pub hashed :
        virtual.input_key_spend_sighash tx prev_asset e.new_asset idx (sig_hash_type witness)
        ≡ ok sighash
    pub accepted : virtual.validate_witness sighash witness prev_asset ≡ ok tt

  -- The input of `witness` is an asset that is there, has the parameters of the new asset, and is spent
  -- with what its script or key asks for.
  pub record IsValidInput (e : Engine) (tx : virtual.Transaction) (idx : ℕ) (witness : Witness)
      : Type 0 where
    pub prev_id : PrevId
    pub prev_asset : Asset
    pub named : witness.prev_id ≡ some prev_id
    pub present : prev_asset_at prev_id e.prev_assets ≡ some prev_asset
    pub matching : Matches e.new_asset prev_asset prev_id
    pub version : prev_asset.script_version ≡ 0
    pub authorised :
        IsScriptSpend e tx idx witness prev_asset ⊎ IsKeySpend e tx idx witness prev_asset

  -- The witnesses from the index `idx` on.
  abbrev pub AllValidInputs : Engine → virtual.Transaction → ℕ → List Witness → Type 0
  AllValidInputs e tx idx [] = Unit {0}
  AllValidInputs e tx idx (w ∷ rest) = IsValidInput e tx idx w × AllValidInputs e tx (idx + 1) rest

  validate_spend_parts :
      (e : Engine) (tx : virtual.Transaction) (idx : ℕ) (w : Witness) (prev_asset : Asset)
      → validate_spend e tx idx w prev_asset ≡ ok tt
      → IsScriptSpend e tx idx w prev_asset ⊎ IsKeySpend e tx idx w prev_asset
  unfolding validate_spend
  validate_spend_parts e tx idx w prev_asset h =
      elim (Bool-cases (is_script_path_witness w.tx_witness)) [
        | inl script ↦
            let (prev_out, spent, h₁) =
              bind_parts (map_text witness_fault (virtual.input_prev_out prev_asset))
                (λ prev_out.
                  virtual.validate_script_spend
                    (virtual.virtual_tx_with_input tx e.new_asset.lock_time
                      e.new_asset.relative_lock_time idx w.tx_witness)
                    prev_out w prev_asset)
                tt (rw script at h) in
            inl (record {
              prev_out = prev_out;
              by_script = script;
              spent = map_text-ok witness_fault (virtual.input_prev_out prev_asset) prev_out spent;
              accepted = h₁;
            })
        | inr key ↦
            let hash =
              virtual.input_key_spend_sighash tx prev_asset e.new_asset idx (sig_hash_type w) in
            let (sighash, hashed, h₁) =
              bind_parts (map_text witness_fault hash)
                (λ sighash. virtual.validate_witness sighash w prev_asset) tt (rw key at h) in
            inr (record {
              sighash = sighash;
              by_key = key;
              hashed = map_text-ok witness_fault hash sighash hashed;
              accepted = h₁;
            })
      ]

  validate_input-IsValidInput :
      (e : Engine) (tx : virtual.Transaction) (idx : ℕ) (w : Witness)
      → validate_input e tx idx w ≡ ok tt
      → IsValidInput e tx idx w
  unfolding validate_input
  validate_input-IsValidInput e tx idx w h =
      let spend : Asset → Result (Unit {0}) VmError = λ a. validate_spend e tx idx w a in
      let check : PrevId → Asset → Result (Unit {0}) VmError = λ p a.
        matches_asset_params e.new_asset a p
        >> (ensure (a.script_version == 0) invalid_script_version >> spend a) in
      let look : PrevId → Result (Unit {0}) VmError =
        λ p. ok_or (prev_asset_at p e.prev_assets) no_inputs >>= check p in
      let (p, named, h₁) = bind_parts (ok_or w.prev_id no_inputs) look tt h in
      let (a, present, h₂) =
        bind_parts (ok_or (prev_asset_at p e.prev_assets) no_inputs) (check p) tt h₁ in
      let (matching, h₃) = then_parts (matches_asset_params e.new_asset a p) _ tt h₂ in
      let (version, h₄) =
        ensure_parts (a.script_version == 0) invalid_script_version (spend a) tt h₃ in
      record {
        prev_id = p;
        prev_asset = a;
        named = ok_or-ok w.prev_id no_inputs p named;
        present = ok_or-ok (prev_asset_at p e.prev_assets) no_inputs a present;
        matching = matches_asset_params-Matches e.new_asset a p matching;
        version = (==_iff a.script_version 0).0 version;
        authorised = validate_spend_parts e tx idx w a h₄;
      }

  validate_inputs-AllValidInputs :
      (e : Engine) (tx : virtual.Transaction) (idx : ℕ) (ws : List Witness)
      → validate_inputs e tx idx ws ≡ ok tt
      → AllValidInputs e tx idx ws
  unfolding validate_inputs
  validate_inputs-AllValidInputs e tx idx [] h = tt
  validate_inputs-AllValidInputs e tx idx (w ∷ rest) h =
      let (first, h₁) =
        then_parts (validate_input e tx idx w) (validate_inputs e tx (idx + 1) rest) tt h in
      (
        validate_input-IsValidInput e tx idx w first,
        validate_inputs-AllValidInputs e tx (idx + 1) rest h₁,
      )

  validate_splits-All :
      (e : Engine) (splits : List SplitAsset)
      → validate_splits e splits ≡ ok tt
      → All (IsSplit e) splits
  unfolding validate_splits
  validate_splits-All e [] h = tt
  validate_splits-All e (s ∷ rest) h =
      let (first, h₁) = then_parts (validate_split e s) (validate_splits e rest) tt h in
      (validate_split-IsSplit e s first, validate_splits-All e rest h₁)

  few_inputs :
      (kind : AssetType) (count : ℕ)
      → not (same_type kind collectible && ltb 1 count) ≡ true
      → kind ≡ collectible
      → count ≤ 1
  few_inputs normal count h same = cc same
  few_inputs collectible count h same = ground (arith, h)

  -- What a transition that is not a genesis has been shown.
  pub record IsTransition (e : Engine) : Type 0 where
    pub base_tx : virtual.Transaction
    pub root_hash : NodeHash
    pub built :
        virtual.virtual_tx e.new_asset e.prev_assets
        ≡ ok (base_tx, root_hash, virtual.output_value base_tx)
    pub spends : 0 < length e.new_asset.prev_witnesses
    pub one_collectible :
        e.new_asset.genesis.asset_type ≡ collectible → length e.new_asset.prev_witnesses ≤ 1
    pub inputs : AllValidInputs e base_tx 0 e.new_asset.prev_witnesses
    pub splits : All (IsSplit e) e.split_assets

  validate_state_transition-IsTransition :
      (e : Engine)
      → All (IsSplit e) e.split_assets
      → validate_state_transition e ≡ ok tt
      → IsTransition e
  unfolding validate_state_transition
  validate_state_transition-IsTransition e splits h =
      let count = length e.new_asset.prev_witnesses in
      let too_many : Bool = same_type e.new_asset.genesis.asset_type collectible && ltb 1 count in
      let finish : virtual.Transaction × NodeHash × ℕ → Result (Unit {0}) VmError = λ t.
        ensure (t.2 == virtual.output_value t.0) (amount_mismatch t.2 (virtual.output_value t.0))
        >> validate_inputs e t.0 0 e.new_asset.prev_witnesses in
      let build = map_text transfer_fault (virtual.virtual_tx e.new_asset e.prev_assets) in
      let (some_input, h₁) = ensure_parts (not (count == 0)) no_inputs _ tt h in
      let (few, h₂) =
        ensure_parts (not too_many) (invalid_transfer_witness collectible_inputs) (build >>= finish)
          tt h₁ in
      let (t, built, h₃) = bind_parts build finish tt h₂ in
      let (sum, h₄) =
        ensure_parts (t.2 == virtual.output_value t.0)
          (amount_mismatch t.2 (virtual.output_value t.0))
          (validate_inputs e t.0 0 e.new_asset.prev_witnesses) tt h₃ in
      let same : t.2 ≡ virtual.output_value t.0 = (==_iff t.2 (virtual.output_value t.0)).0 sum in
      record {
        base_tx = t.0;
        root_hash = t.1;
        built =
            map_text-ok transfer_fault (virtual.virtual_tx e.new_asset e.prev_assets) t built
            ∙ ap (λ n. ok (t.0, t.1, n)) same;
        spends = ground (arith, some_input);
        one_collectible = few_inputs e.new_asset.genesis.asset_type count few;
        inputs = validate_inputs-AllValidInputs e t.0 0 e.new_asset.prev_witnesses h₄;
        splits = splits;
      }

  -- When the engine accepts a transition that is not a genesis: there is an input, and for a collectible
  -- only one; the virtual transaction is built, with the sum of its inputs as the value of its output;
  -- every witness names an asset that is there, which has the key, the id or group, and the type that
  -- the new asset needs and script version 0, and the spend of which is accepted; and every split is
  -- accepted.
  pub execute-IsTransition :
      (e : Engine)
      → has_genesis_witness e.new_asset ≡ false
      → has_genesis_witness_for_group e.new_asset ≡ false
      → execute e ≡ ok tt
      → IsTransition e
  unfolding execute
  execute-IsTransition e no_genesis no_group h =
      let (splits, h₁) =
        then_parts (validate_splits e e.split_assets) (validate_state_transition e) tt
          (rw (no_genesis, no_group) at h) in
      validate_state_transition-IsTransition e (validate_splits-All e e.split_assets splits) h₁
