-- ===== src/Channel/Allocation/Pieces.antt =====
-- tap-ldk/src/channel/allocation.rs: the pieces, and how one allocation is filled from them.
pub mod Filling
use Prim.Native.Nat.{Ordering, lt, eq, gt}
use rust_tap.Common.{ℕ, ◌+◌, ◌-◌, ◌^◌, Bool, true, false, not, ◌&&◌, ◌||◌, Option, none, some}
use rust_tap.Common.{
  List, [], ◌∷◌, ◌++◌, map, Result, ok, err, ensure, ok_or, ◌>>=◌, ◌>>◌, map_option,
}
use rust_tap.Common.{ltb, leb, ◌==◌, if◌then◌else◌, length, bytes_eq}
use rust_tap.Mint.Interface.{AssetType, normal, collectible}
use rust_tap.Channel.Interface.{
  ChannelAssets, AssetId, ScriptKey, TweakedScriptKey, OutputScriptKey, TapscriptPreimage,
}
use rust_tap.Channel.Interface.{VOutputType, simple, split_root_type}
unfoldable use rust_tap.Channel.Order.{bytes_cmp, sort_by}
use rust_tap.Channel.Allocation.{AllocationError, Allocation, VInput, VOutput, VPacket}
use rust_tap.Channel.Allocation.{
  missing_inputs, missing_allocations, input_types_not_equal, input_group_mismatch,
}
use rust_tap.Channel.Allocation.{
  input_output_sum_mismatch, script_key_gen_missing, no_split_root, amount_overflow,
}
use rust_tap.Channel.Allocation.{mismatched_v_packet_versions}
unfoldable use rust_tap.Channel.Allocation.{
  is_no_assets, validate_allocation, tapscript_sibling, asset_sort_for_inputs,
}
unfoldable use rust_tap.Channel.Allocation.{has_split_root_output}

-- `checked_add` on `u64`.
unfoldable pub add_checked : ℕ → ℕ → Result ℕ AllocationError
add_checked a b = do ensure (ltb (a + b) (2 ^ 64)) amount_overflow; ok (a + b)

-- The tweak with its raw key in a key descriptor, as `allocate_piece` writes it.
unfoldable pub describe_tweak : TweakedScriptKey → rust_tap.Channel.Interface.TweakedScriptKeyDesc
describe_tweak t = record {
  key_desc = record { family = 0; index = 0; pub_key = t.raw_key };
  desc_tweak = t.tweak;
}

module _ ⦃assets : ChannelAssets⦄ where
  pub record Piece : Type 0 where
    pub piece_id : AssetId
    pub total_available : ℕ
    pub allocated : ℕ
    pub piece_inputs : List assets.Asset
    pub packet : VPacket

  -- `total_available - allocated`, which an invariant keeps from going below 0.
  unfoldable pub available : Piece → ℕ
  available p = p.total_available - p.allocated

  unfoldable pub sort_pieces_with_inputs : List Piece → List Piece
  unfolding bytes_cmp asset_sort_for_inputs sort_by
  sort_pieces_with_inputs pieces =
      map (λ (p : Piece). record p { piece_inputs = sort_by asset_sort_for_inputs p.piece_inputs })
        (sort_by (λ (i : Piece) (j : Piece). bytes_cmp i.piece_id j.piece_id) pieces)

  unfoldable pub asset_tap_commitment_key : assets.Asset → List ℕ
  asset_tap_commitment_key a =
      assets.tap_commitment_key (assets.asset_id a) (assets.group_pub_key a)

  unfoldable pub v_input_from_asset : AssetId → assets.Asset → VInput
  v_input_from_asset id a = record {
    prev_id_asset = id;
    prev_id_script_key = assets.asset_script_key a;
    input_asset = some a;
  }

  -- The output for the allocation, before its type and its amount are set.
  unfoldable pub output_for : Allocation → Option TapscriptPreimage → ScriptKey → Bool → VOutput
  unfolding describe_tweak
  output_for a sibling key interactive = record {
    out_amount = 0;
    out_asset_version = a.asset_version;
    output_type = simple;
    interactive = interactive;
    anchor_output_index = a.output_index;
    anchor_output_internal_key = a.internal_key;
    anchor_output_bip32_derivation = a.bip32_derivation;
    anchor_output_taproot_bip32_derivation = a.taproot_bip32_derivation;
    anchor_output_tapscript_sibling = sibling;
    output_script_key = record {
      out_pub_key = key.pub_key;
      out_tweaked = map_option describe_tweak key.tweaked;
    };
    relative_lock_time = a.sequence;
    out_lock_time = a.lock_time;
    out_proof_delivery_address = a.proof_delivery_address;
    out_alt_leaves = a.alt_leaves;
  }

  unfoldable pub push_output : Piece → VOutput → Piece
  push_output p o = record p { packet = record p.packet { outputs = p.packet.outputs ++ (o ∷ []) } }

  -- The type of an output that takes something from the piece.
  unfoldable pub output_type_for : Piece → Allocation → ℕ → Bool → VOutputType
  unfolding available
  output_type_for p a to_fill interactive =
      let consume_fully = p.allocated == 0 && leb (available p) to_fill in
      let need_split_root = a.split_root && (not interactive || not consume_fully) in
      let split_root_is_only_output = a.split_root && consume_fully in
      if need_split_root && not split_root_is_only_output then split_root_type else simple

  -- `allocate_piece` with the output made: the piece after it, and what was allocated.
  unfoldable pub place : Piece → Allocation → VOutput → ℕ → Bool → Piece × ℕ
  unfolding available push_output output_type_for
  place p a o to_fill interactive =
      let allocating = if ltb (available p) to_fill then available p else to_fill in
      if available p == 0 || to_fill == 0
      then if interactive || not a.split_root
        then (p, 0)
        else (push_output p (record o { output_type = split_root_type }), 0)
      else (
        record (push_output p (record o {
          output_type = output_type_for p a to_fill interactive;
          out_amount = allocating;
        })) { allocated = p.allocated + allocating },
        allocating,
      )

  unfoldable pub allocate_piece : Piece → Allocation → ℕ → Bool → Result (Piece × ℕ) AllocationError
  unfolding tapscript_sibling output_for place
  allocate_piece p a to_fill interactive = do
    sibling ← tapscript_sibling a
    key ← ok_or a.script_key script_key_gen_missing
    ok (place p a (output_for a sibling key interactive) to_fill interactive)

  -- The loop over the pieces, for one allocation.
  unfoldable pub fill_loop :
      Allocation → Bool → ℕ → List Piece → Result (List Piece) AllocationError
  unfolding allocate_piece
  fill_loop a interactive to_fill [] = ok []
  fill_loop a interactive to_fill (p ∷ rest) = do
    (p', fill_delta) ← allocate_piece p a to_fill interactive
    let later = fill_loop a interactive (to_fill - fill_delta) rest
    rest' ← (if to_fill - fill_delta == 0 && interactive then ok rest else later)
    ok (p' ∷ rest')
