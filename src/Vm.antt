-- ===== src/Vm.antt =====
-- tap-primitives/src/vm: the checks of a state transition. Here: assets, witnesses and previous ids,
-- of tap-primitives/src/asset, and what the engine takes from elsewhere.
pub mod Engine
pub mod Matching
pub mod Transition
pub mod Acceptance
pub mod SplitChecks
pub mod Splits
mod Examples
use rust_tap.Common.{ℕ, ◌-◌, ◌+◌, ◌%◌, Bool, true, false, not, ◌&&◌, ◌||◌, Option, none, some}
use rust_tap.Common.{
  List, [], ◌∷◌, ◌++◌, Result, ok, ◌>>=◌, ltb, leb, ◌==◌, if◌then◌else◌, length, bytes_eq,
  replicate, drop,
}
use rust_tap.Common.Bytes.{to_be_bytes}
use rust_tap.Mint.Interface.{Genesis, OutPoint, AssetType, normal, collectible}
use rust_tap.Channel.Interface.{AssetId, SerializedKey, ScriptKey}
use rust_tap.Mssmt.Hashing.{Sha256}
use rust_tap.Mssmt.Node.{NodeHash, LeafNode}
use rust_tap.Mssmt.Proof.{Proof}

pub record PrevId : Type 0 where
  pub out_point : OutPoint
  pub id : AssetId
  pub script_key : SerializedKey

unfoldable pub zero_prev_id : PrevId
zero_prev_id = record {
  out_point = record { txid = replicate 32 0; vout = 0 };
  id = replicate 32 0;
  script_key = replicate 33 0;
}

-- `==` on previous ids.
unfoldable pub prev_id_eq : PrevId → PrevId → Bool
prev_id_eq p q =
    bytes_eq p.out_point.txid q.out_point.txid
    && p.out_point.vout == q.out_point.vout
    && bytes_eq p.id q.id
    && bytes_eq p.script_key q.script_key

pub record SplitCommitmentWitness : Type 0 where
  pub proof : Proof
  pub root_asset : List ℕ

pub record Witness : Type 0 where
  pub prev_id : Option PrevId
  pub tx_witness : List (List ℕ)
  pub split_commitment : Option SplitCommitmentWitness

abbrev pub has_zero_prev_id : Option PrevId → Bool
has_zero_prev_id none = false
has_zero_prev_id (some p) = prev_id_eq p zero_prev_id

abbrev pub is_set {ℓ} : {A : Type ℓ} → Option A → Bool
is_set none = false
is_set (some a) = true

unfoldable pub is_genesis : Witness → Bool
unfolding prev_id_eq zero_prev_id
is_genesis w =
    has_zero_prev_id w.prev_id && length w.tx_witness == 0 && not (is_set w.split_commitment)

unfoldable pub is_genesis_for_group : Witness → Bool
unfolding prev_id_eq zero_prev_id
is_genesis_for_group w =
    has_zero_prev_id w.prev_id && not (length w.tx_witness == 0) && not (is_set w.split_commitment)

unfoldable pub is_split_commitment : Witness → Bool
is_split_commitment w = is_set w.split_commitment

pub record GroupKey : Type 0 where
  pub group_version : ℕ
  pub raw_group_key : SerializedKey
  pub group_pub_key : SerializedKey
  pub group_tapscript_root : List ℕ
  pub group_witness : List (List ℕ)

pub record Asset : Type 0 where
  pub asset_version : ℕ
  pub genesis : Genesis
  pub amount : ℕ
  pub lock_time : ℕ
  pub relative_lock_time : ℕ
  pub prev_witnesses : List Witness
  pub split_commitment_root : Option (NodeHash × ℕ)
  pub script_version : ℕ
  pub script_key : ScriptKey
  pub group_key : Option GroupKey
  pub unknown_odd_types : List (ℕ × List ℕ)

unfoldable pub has_genesis_witness : Asset → Bool
unfolding is_genesis
has_genesis_witness a = elim a.prev_witnesses [
  | [] ↦ false
  | ◌∷◌ w rest ↦ length rest == 0 && is_genesis w
]

unfoldable pub has_genesis_witness_for_group : Asset → Bool
unfolding is_genesis_for_group
has_genesis_witness_for_group a = elim a.prev_witnesses [
  | [] ↦ false
  | ◌∷◌ w rest ↦ length rest == 0 && is_genesis_for_group w && is_set a.group_key
]

unfoldable pub has_split_commitment_witness : Asset → Bool
unfolding is_split_commitment
has_split_commitment_witness a = elim a.prev_witnesses [
  | [] ↦ false
  | ◌∷◌ w rest ↦ length rest == 0 && is_split_commitment w
]

-- `PrevId` to asset, as the entries of the hash map.
abbrev pub InputSet : Type 0
InputSet = List (PrevId × Asset)

unfoldable pub prev_asset_at : PrevId → InputSet → Option Asset
unfolding prev_id_eq
prev_asset_at p [] = none
prev_asset_at p ((q, a) ∷ rest) =
    let later = prev_asset_at p rest in if prev_id_eq q p then some a else later

pub record SplitAsset : Type 0 where
  pub asset : Asset
  pub output_index : ℕ

pub record SplitLocator : Type 0 where
  pub locator_output_index : ℕ
  pub locator_asset_id : AssetId
  pub locator_script_key : SerializedKey
  pub locator_amount : ℕ

-- `schnorr_bytes` drops the first byte of the key.
unfoldable pub locator_hash : ⦃sha256 : Sha256⦄ → SplitLocator → List ℕ
locator_hash ⦃sha256⦄ l =
    sha256.digest
      ((to_be_bytes 4 l.locator_output_index ++ l.locator_asset_id) ++ drop 1 l.locator_script_key)

-- What an error says.
pub data VmText : Type 0 where
  said : List ℕ → VmText
  collectible_inputs : VmText
  script_path_group : VmText

pub data VmError : Type 0 where
  invalid_genesis_state_transition : VmError
  no_inputs : VmError
  amount_mismatch : ℕ → ℕ → VmError
  invalid_split_asset_type : VmError
  no_split_commitment : VmError
  invalid_split_commitment_witness : VmError
  invalid_split_commitment_proof : VmError
  invalid_root_asset : VmError
  invalid_transfer_witness : VmText → VmError
  script_key_mismatch : VmError
  id_mismatch : VmError
  type_mismatch : VmError
  invalid_script_version : VmError
  witness_validation_failed : VmText → VmError

-- Virtual transactions and signature hashes (tap-primitives/src/crypto), the bytes of an asset in a
-- leaf (tap-primitives/src/encoding/asset.rs), and the trait `WitnessValidator`.
pub record Virtual : Type 1 where
  pub Transaction : Type 0
  pub TxOut : Type 0
  pub SigHashType : Type 0
  pub nums_key : SerializedKey
  pub genesis_id : Genesis → AssetId
  pub encode_asset_leaf : Asset → Result (List ℕ) (List ℕ)
  -- With the root hash and the root sum of the tree of the inputs.
  pub virtual_tx : Asset → InputSet → Result (Transaction × NodeHash × ℕ) (List ℕ)
  -- `output[0].value`
  pub output_value : Transaction → ℕ
  pub virtual_tx_with_input : Transaction → ℕ → ℕ → ℕ → List (List ℕ) → Transaction
  pub input_prev_out : Asset → Result TxOut (List ℕ)
  pub default_sig_hash : SigHashType
  pub taproot_witness_sig_hash_type : List ℕ → Result SigHashType (List ℕ)
  pub input_key_spend_sighash :
      Transaction → Asset → Asset → ℕ → SigHashType → Result (List ℕ) (List ℕ)
  pub input_group_genesis_key_spend_sighash :
      Transaction → Asset → SigHashType → Result (List ℕ) (List ℕ)
  pub validate_witness : List ℕ → Witness → Asset → Result (Unit {0}) VmError
  pub validate_script_spend : Transaction → TxOut → Witness → Asset → Result (Unit {0}) VmError

-- The sum of a leaf is the amount of the asset.
unfoldable pub asset_to_leaf : ⦃virtual : Virtual⦄ → Asset → Result LeafNode (List ℕ)
asset_to_leaf ⦃virtual⦄ a = do
  encoded ← virtual.encode_asset_leaf a
  ok (record { value = encoded; sum = a.amount })

unfoldable pub is_unspendable : ⦃virtual : Virtual⦄ → Asset → Bool
is_unspendable ⦃virtual⦄ a = bytes_eq a.script_key.pub_key virtual.nums_key && a.amount == 0

abbrev last_element : List (List ℕ) → List ℕ
last_element [] = []
last_element (x ∷ []) = x
last_element (x ∷ y ∷ rest) = last_element (y ∷ rest)

abbrev first_byte : List ℕ → ℕ
first_byte [] = 0
first_byte (b ∷ rest) = b

-- `first_byte & 0xFE` is the byte without its lowest bit.
unfoldable pub is_script_path_witness : List (List ℕ) → Bool
is_script_path_witness witness =
    let last = last_element witness in
    not (ltb (length witness) 2)
    && not (ltb (length last) 33)
    && (first_byte last - first_byte last % 2) == 0xC0
    && not (ltb (length last - 1) 32)
    && (length last - 1 - 32) % 32 == 0
