-- ===== src/Channel/Interface.antt =====
-- What the allocation code takes from elsewhere: assets and commitments (tap-primitives), virtual
-- packets (tap-primitives/src/vpsbt), and the leaf hash of the bitcoin library.
use rust_tap.Common.{ℕ, List, Option, Result}
use rust_tap.Mint.Interface.{KeyDescriptor, AssetType}

-- `AssetId` and `SerializedKey`, as their bytes.
abbrev pub AssetId : Type 0
AssetId = List ℕ

abbrev pub SerializedKey : Type 0
SerializedKey = List ℕ

-- The tweak of a script key: the raw key and the tweak bytes.
pub record TweakedScriptKey : Type 0 where
  pub raw_key : SerializedKey
  pub tweak : List ℕ

pub record ScriptKey : Type 0 where
  pub pub_key : SerializedKey
  pub tweaked : Option TweakedScriptKey

pub record TweakedScriptKeyDesc : Type 0 where
  pub key_desc : KeyDescriptor
  pub desc_tweak : List ℕ

pub record OutputScriptKey : Type 0 where
  pub out_pub_key : SerializedKey
  pub out_tweaked : Option TweakedScriptKeyDesc

pub record TapscriptPreimage : Type 0 where
  pub sibling_type : ℕ
  pub sibling_preimage_bytes : List ℕ

pub data VOutputType : Type 0 where
  simple : VOutputType
  split_root_type : VOutputType

pub record ChannelAssets : Type 1 where
  pub Asset : Type 0
  pub TapCommitment : Type 0
  pub Bip32Derivation : Type 0
  pub TaprootBip32Derivation : Type 0
  pub TapNetwork : Type 0
  pub asset_id : Asset → AssetId
  pub asset_amount : Asset → ℕ
  pub asset_type : Asset → AssetType
  pub group_pub_key : Asset → Option SerializedKey
  pub asset_script_key : Asset → SerializedKey
  -- `tap_commitment_key` of tap-primitives/src/commitment.
  pub tap_commitment_key : AssetId → Option SerializedKey → List ℕ
  -- `tap_leaf_hash` of tap-primitives/src/crypto.
  pub tap_leaf_hash : ℕ → List ℕ → List ℕ
  -- `parse_pub_key`, `x_only_public_key` and `compute_taproot_output_key` of crypto/keys.rs; a key is
  -- its serialization.
  pub PublicKey : Type 0
  pub parse_pub_key : SerializedKey → Result PublicKey (List ℕ)
  pub x_only_public_key : PublicKey → List ℕ
  pub compute_taproot_output_key : List ℕ → List ℕ → Result (List ℕ) (List ℕ)
  -- `tap_hash`, `tapscript_root` and `tap_leaf` of tap-primitives/src/commitment.
  pub tap_hash : TapscriptPreimage → Result (List ℕ) (List ℕ)
  pub tapscript_root : TapCommitment → Option (List ℕ) → List ℕ
  pub tap_leaf : TapCommitment → List ℕ
