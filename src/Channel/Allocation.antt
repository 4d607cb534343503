-- ===== src/Channel/Allocation.antt =====
-- tap-ldk/src/channel/allocation.rs: the types of the allocation code, and its helpers.
pub mod Pieces
pub mod Distribution
pub mod Scripts
use Prim.Native.Nat.{compare, Ordering}
use rust_tap.Common.{
  ℕ, ◌+◌, ◌-◌, ◌/◌, ◌%◌, ◌^◌, Bool, true, false, not, ◌&&◌, ◌||◌, Option, none, some,
}
use rust_tap.Common.{
  List, [], ◌∷◌, ◌++◌, map, Result, ok, err, ensure, ok_or, ◌>>=◌, ◌>>◌, map_option,
}
use rust_tap.Common.{ltb, leb, ◌==◌, if◌then◌else◌, length}
use rust_tap.Common.Bytes.{to_be_bytes}
use rust_tap.Mint.Interface.{KeyDescriptor, AssetType, normal, collectible}
use rust_tap.Channel.Interface.{
  ChannelAssets, AssetId, SerializedKey, ScriptKey, TweakedScriptKey, OutputScriptKey,
}
use rust_tap.Channel.Interface.{
  TweakedScriptKeyDesc, TapscriptPreimage, VOutputType, simple, split_root_type,
}
unfoldable use rust_tap.Channel.Order.{bytes_cmp, then_with, sort_by}

abbrev pub base_leaf_version : ℕ
base_leaf_version = 0xc0

-- What an error says: the length of a key, the number of leaves, or the text of another error.
pub data AllocationText : Type 0 where
  key_length : ℕ → AllocationText
  leaf_count : ℕ → AllocationText
  said : List ℕ → AllocationText

pub data AllocationError : Type 0 where
  missing_inputs : AllocationError
  missing_allocations : AllocationError
  input_types_not_equal : AllocationError
  input_group_mismatch : AllocationError
  input_output_sum_mismatch : ℕ → ℕ → AllocationError
  commitment_not_set : AllocationError
  invalid_sibling : AllocationError
  script_key_gen_missing : AllocationError
  no_split_root : AllocationError
  missing_internal_key : AllocationError
  invalid_key : AllocationText → AllocationError
  invalid_preimage : AllocationText → AllocationError
  missing_output_commitment : ℕ → AllocationError
  amount_overflow : AllocationError
  mismatched_v_packet_versions : AllocationError

pub data AllocationType : Type 0 where
  no_assets : AllocationType
  commit_allocation_to_local : AllocationType
  commit_allocation_to_remote : AllocationType
  htlc_incoming : AllocationType
  htlc_outgoing : AllocationType
  second_level_htlc : AllocationType

unfoldable pub to_u8 : AllocationType → ℕ
to_u8 no_assets = 0
to_u8 commit_allocation_to_local = 1
to_u8 commit_allocation_to_remote = 2
to_u8 htlc_incoming = 3
to_u8 htlc_outgoing = 4
to_u8 second_level_htlc = 5

-- `== AllocationType::NoAssets`
unfoldable pub is_no_assets : AllocationType → Bool
unfolding to_u8
is_no_assets t = to_u8 t == 0

abbrev is_some {ℓ} : {A : Type ℓ} → Option A → Bool
is_some none = false
is_some (some a) = true

unfoldable pub reverse_onto : List ℕ → List ℕ → List ℕ
reverse_onto [] out = out
reverse_onto (b ∷ bs) out = reverse_onto bs (b ∷ out)

-- `to_le_bytes`
unfoldable pub to_le_bytes : ℕ → ℕ → List ℕ
unfolding reverse_onto
to_le_bytes k v = reverse_onto (to_be_bytes k v) []

unfoldable pub write_var_bytes : List ℕ → List ℕ → List ℕ
unfolding to_le_bytes
write_var_bytes buf bytes =
    let len = length bytes in
    if ltb len 0xfd
    then (buf ++ (len % 2 ^ 8 ∷ [])) ++ bytes
    else if leb len 0xffff
    then ((buf ++ (0xfd ∷ [])) ++ to_le_bytes 2 (len % 2 ^ 16)) ++ bytes
    else if leb len 0xffff_ffff
    then ((buf ++ (0xfe ∷ [])) ++ to_le_bytes 4 (len % 2 ^ 32)) ++ bytes
    else ((buf ++ (0xff ∷ [])) ++ to_le_bytes 8 len) ++ bytes

module _ ⦃assets : ChannelAssets⦄ where
  pub record Allocation : Type 0 where
    pub alloc_type : AllocationType
    pub output_index : ℕ
    pub split_root : Bool
    pub internal_key : Option SerializedKey
    pub bip32_derivation : List assets.Bip32Derivation
    pub taproot_bip32_derivation : List assets.TaprootBip32Derivation
    pub non_asset_leaves : List (List ℕ)
    pub sibling_preimage : Option TapscriptPreimage
    pub script_key : Option ScriptKey
    pub amount : ℕ
    pub asset_version : ℕ
    pub btc_amount : ℕ
    pub sort_taproot_key_bytes : List ℕ
    pub sort_cltv : ℕ
    pub sequence : ℕ
    pub lock_time : ℕ
    pub htlc_index : ℕ
    pub output_commitment : Option assets.TapCommitment
    pub proof_delivery_address : Option (List ℕ)
    pub alt_leaves : List assets.Asset

  -- The fields of `VInput` that `v_input_from_asset` sets; the others stay at their defaults.
  pub record VInput : Type 0 where
    pub prev_id_asset : AssetId
    pub prev_id_script_key : SerializedKey
    pub input_asset : Option assets.Asset

  -- `VOutput`, without the assets, the proof suffix and the address, which stay unset here.
  pub record VOutput : Type 0 where
    pub out_amount : ℕ
    pub out_asset_version : ℕ
    pub output_type : VOutputType
    pub interactive : Bool
    pub anchor_output_index : ℕ
    pub anchor_output_internal_key : Option SerializedKey
    pub anchor_output_bip32_derivation : List assets.Bip32Derivation
    pub anchor_output_taproot_bip32_derivation : List assets.TaprootBip32Derivation
    pub anchor_output_tapscript_sibling : Option TapscriptPreimage
    pub output_script_key : OutputScriptKey
    pub relative_lock_time : ℕ
    pub out_lock_time : ℕ
    pub out_proof_delivery_address : Option (List ℕ)
    pub out_alt_leaves : List assets.Asset

  pub record VPacket : Type 0 where
    pub inputs : List VInput
    pub outputs : List VOutput
    pub chain_params : assets.TapNetwork
    pub version : ℕ

  unfoldable pub is_split_root : VOutputType → Bool
  is_split_root simple = false
  is_split_root split_root_type = true

  abbrev some_split_root : List VOutput → Bool
  some_split_root [] = false
  some_split_root (o ∷ rest) = is_split_root o.output_type || some_split_root rest

  unfoldable pub has_split_root_output : VPacket → Bool
  unfolding is_split_root
  has_split_root_output p = some_split_root p.outputs

  unfoldable pub validate_allocation : Allocation → Result (Unit {0}) AllocationError
  unfolding is_no_assets
  validate_allocation a = do
    ensure (length a.non_asset_leaves == 0 || not (is_some a.sibling_preimage)) invalid_sibling
    ensure (is_no_assets a.alloc_type || is_some a.script_key) script_key_gen_missing

  -- The match on the number of leaves.
  unfoldable pub leaves_sibling : List (List ℕ) → Result (Option TapscriptPreimage) AllocationError
  unfolding write_var_bytes
  leaves_sibling [] = ok none
  leaves_sibling (script ∷ []) = ok (
      some (record {
        sibling_type = 0;
        sibling_preimage_bytes = write_var_bytes (base_leaf_version ∷ []) script;
      }))
  leaves_sibling (a ∷ b ∷ []) = ok (
      some (record {
        sibling_type = 1;
        sibling_preimage_bytes =
            assets.tap_leaf_hash base_leaf_version a ++ assets.tap_leaf_hash base_leaf_version b;
      }))
  leaves_sibling (a ∷ b ∷ c ∷ rest) =
      err (invalid_preimage (leaf_count (length (a ∷ b ∷ c ∷ rest))))

  unfoldable pub tapscript_sibling : Allocation → Result (Option TapscriptPreimage) AllocationError
  unfolding leaves_sibling
  tapscript_sibling a = elim a.sibling_preimage [
    | some preimage ↦ ok (some preimage)
    | none ↦ leaves_sibling a.non_asset_leaves
  ]

  unfoldable pub compare_allocations : Allocation → Allocation → Ordering
  unfolding then_with bytes_cmp
  compare_allocations i j = then_with (compare i.btc_amount j.btc_amount) (
      then_with (bytes_cmp i.sort_taproot_key_bytes j.sort_taproot_key_bytes)
        (then_with (compare i.sort_cltv j.sort_cltv) (compare i.htlc_index j.htlc_index)))

  unfoldable pub in_place_allocation_sort : List Allocation → List Allocation
  unfolding compare_allocations sort_by
  in_place_allocation_sort allocations = sort_by compare_allocations allocations

  unfoldable pub asset_sort_for_inputs : assets.Asset → assets.Asset → Ordering
  unfolding then_with bytes_cmp
  asset_sort_for_inputs i j =
      then_with (compare (assets.asset_amount j) (assets.asset_amount i))
        (bytes_cmp (assets.asset_script_key i) (assets.asset_script_key j))

  -- `BTreeMap::get` on the output commitments.
  unfoldable pub commitment_at : ℕ → List (ℕ × assets.TapCommitment) → Option assets.TapCommitment
  commitment_at index [] = none
  commitment_at index ((k, c) ∷ rest) =
      let later = commitment_at index rest in if k == index then some c else later

  -- On an error the source leaves the allocations before it assigned; the caller gets the error.
  unfoldable pub assign_output_commitments :
      List Allocation → List (ℕ × assets.TapCommitment) → Result (List Allocation) AllocationError
  unfolding commitment_at is_no_assets
  assign_output_commitments [] commitments = ok []
  assign_output_commitments (a ∷ rest) commitments = do
    a' ←
        (if is_no_assets a.alloc_type then ok a else do
          c ←
              ok_or (commitment_at a.output_index commitments)
                (missing_output_commitment a.output_index)
          ok (record a { output_commitment = some c }))
    later ← assign_output_commitments rest commitments
    ok (a' ∷ later)
