-- ===== src/Channel/Allocation/Distribution.antt =====
-- tap-ldk/src/channel/allocation.rs: `distribute_coins` and what it calls.
pub mod Grouping
pub mod Conservation
pub mod Units
mod Examples
use Prim.Native.Nat.{Ordering, lt, eq, gt}
use rust_tap.Common.{ℕ, ◌+◌, ◌-◌, ◌^◌, Bool, true, false, not, ◌&&◌, ◌||◌, Option, none, some}
use rust_tap.Common.{
  List, [], ◌∷◌, ◌++◌, map, Result, ok, err, ensure, ok_or, ◌>>=◌, ◌>>◌, map_option,
}
use rust_tap.Common.{ltb, leb, ◌==◌, if◌then◌else◌, length, bytes_eq}
use rust_tap.Mint.Interface.{AssetType, normal, collectible}
use rust_tap.Channel.Interface.{
  ChannelAssets, AssetId, ScriptKey, TweakedScriptKey, OutputScriptKey, TapscriptPreimage,
}
use rust_tap.Channel.Interface.{VOutputType, simple, split_root_type}
unfoldable use rust_tap.Channel.Order.{bytes_cmp, sort_by}
use rust_tap.Channel.Allocation.{AllocationError, Allocation, VInput, VOutput, VPacket}
use rust_tap.Channel.Allocation.{
  missing_inputs, missing_allocations, input_types_not_equal, input_group_mismatch,
}
use rust_tap.Channel.Allocation.{
  input_output_sum_mismatch, script_key_gen_missing, no_split_root, amount_overflow,
}
use rust_tap.Channel.Allocation.{mismatched_v_packet_versions}
unfoldable use rust_tap.Channel.Allocation.{
  is_no_assets, validate_allocation, tapscript_sibling, asset_sort_for_inputs,
}
unfoldable use rust_tap.Channel.Allocation.{has_split_root_output}
use rust_tap.Channel.Allocation.Pieces.{Piece}
unfoldable use rust_tap.Channel.Allocation.Pieces.{
  add_checked, sort_pieces_with_inputs, asset_tap_commitment_key, v_input_from_asset, fill_loop,
}

abbrev pub is_collectible : AssetType → ℕ
is_collectible normal = 0
is_collectible collectible = 1

module _ ⦃assets : ChannelAssets⦄ where
  -- The loop over the allocations.
  unfoldable pub fill_all :
      List Allocation → Bool → List Piece → Result (List Piece) AllocationError
  unfolding is_no_assets fill_loop
  fill_all [] interactive pieces = ok pieces
  fill_all (a ∷ rest) interactive pieces = do
    pieces' ←
        (if is_no_assets a.alloc_type then ok pieces else fill_loop a interactive a.amount pieces)
    fill_all rest interactive pieces'

  -- The loop over the inputs: the sum of the amounts on top of `sum`.
  unfoldable pub check_inputs : assets.Asset → ℕ → List assets.Asset → Result ℕ AllocationError
  unfolding asset_tap_commitment_key add_checked
  check_inputs first sum [] = ok sum
  check_inputs first sum (a ∷ rest) = do
    ensure (is_collectible (assets.asset_type first) == is_collectible (assets.asset_type a))
        input_types_not_equal
    ensure (bytes_eq (asset_tap_commitment_key first) (asset_tap_commitment_key a))
        input_group_mismatch
    sum' ← add_checked sum (assets.asset_amount a)
    check_inputs first sum' rest

  -- The loop over the allocations before the distribution: the sum, and whether one has a split root.
  unfoldable pub check_allocations : ℕ → Bool → List Allocation → Result (ℕ × Bool) AllocationError
  unfolding validate_allocation add_checked
  check_allocations sum have_split_root [] = ok (sum, have_split_root)
  check_allocations sum have_split_root (a ∷ rest) = do
    validate_allocation a
    sum' ← add_checked sum a.amount
    check_allocations sum' (have_split_root || a.split_root) rest

  abbrev pub Group : Type 0
  Group = AssetId × List assets.Asset

  -- `grouped.entry(id).or_default().push(a)` on a map in the order of its keys.
  unfoldable pub push_to_group : assets.Asset → List Group → List Group
  unfolding bytes_cmp
  push_to_group a [] = (assets.asset_id a, a ∷ []) ∷ []
  push_to_group a ((id, members) ∷ rest) =
      let later = push_to_group a rest in
      elim (bytes_cmp (assets.asset_id a) id) [
        | lt ↦ (assets.asset_id a, a ∷ []) ∷ (id, members) ∷ rest
        | eq ↦ (id, members ++ (a ∷ [])) ∷ rest
        | gt ↦ (id, members) ∷ later
      ]

  unfoldable pub group_inputs : List Group → List assets.Asset → List Group
  unfolding push_to_group
  group_inputs groups [] = groups
  group_inputs groups (a ∷ rest) = group_inputs (push_to_group a groups) rest

  unfoldable pub sum_checked : ℕ → List assets.Asset → Result ℕ AllocationError
  unfolding add_checked
  sum_checked sum [] = ok sum
  sum_checked sum (a ∷ rest) = do
    sum' ← add_checked sum (assets.asset_amount a)
    sum_checked sum' rest

  unfoldable pub new_piece : assets.TapNetwork → ℕ → Group → Result Piece AllocationError
  unfolding sum_checked asset_sort_for_inputs sort_by v_input_from_asset
  new_piece chain_params vpkt_version (id, members) = do
    sum_by_id ← sum_checked 0 members
    let sorted = sort_by asset_sort_for_inputs members
    ok (record {
      piece_id = id;
      total_available = sum_by_id;
      allocated = 0;
      piece_inputs = sorted;
      packet = record {
        inputs = map (v_input_from_asset id) sorted;
        outputs = [];
        chain_params = chain_params;
        version = vpkt_version;
      };
    })

  unfoldable pub new_pieces :
      assets.TapNetwork → ℕ → List Group → Result (List Piece) AllocationError
  unfolding new_piece
  new_pieces chain_params vpkt_version [] = ok []
  new_pieces chain_params vpkt_version (g ∷ rest) = do
    p ← new_piece chain_params vpkt_version g
    later ← new_pieces chain_params vpkt_version rest
    ok (p ∷ later)

  abbrev pub same_version : ℕ → List VPacket → Bool
  same_version v [] = true
  same_version v (p ∷ rest) = p.version == v && same_version v rest

  unfoldable pub validate_vpacket_versions : List VPacket → Result (Unit {0}) AllocationError
  validate_vpacket_versions [] = ok tt
  validate_vpacket_versions (p ∷ rest) =
      ensure (same_version p.version rest) mismatched_v_packet_versions

  abbrev pub root_first : List VOutput → List VOutput
  root_first [] = []
  root_first (o ∷ rest) = record o { output_type = split_root_type } ∷ rest

  -- The loop body that gives an interactive packet its split root.
  unfoldable pub assign_split_root : VPacket → VPacket
  unfolding has_split_root_output
  assign_split_root p =
      if ltb 1 (length p.outputs) && not (has_split_root_output p)
      then record p { outputs = root_first p.outputs }
      else p

  -- `inputs` is `first` and what follows it.
  unfoldable pub distribute_from :
      assets.Asset
      → List assets.Asset
      → List Allocation
      → assets.TapNetwork
      → Bool
      → ℕ
      → Result (List VPacket) AllocationError
  unfolding check_inputs check_allocations group_inputs new_pieces sort_pieces_with_inputs fill_all
      validate_vpacket_versions assign_split_root
  distribute_from first inputs allocations chain_params interactive vpkt_version = do
    input_sum ← check_inputs first 0 inputs
    (output_sum, have_split_root) ← check_allocations 0 false allocations
    ensure (interactive || have_split_root) no_split_root
    ensure (input_sum == output_sum) (input_output_sum_mismatch input_sum output_sum)
    pieces ← new_pieces chain_params vpkt_version (group_inputs [] inputs)
    pieces' ← fill_all allocations interactive (sort_pieces_with_inputs pieces)
    let packets = map (λ (p : Piece). p.packet) pieces'
    validate_vpacket_versions packets
    ok (if interactive then map assign_split_root packets else packets)

  unfoldable pub distribute_coins :
      List assets.Asset
      → List Allocation
      → assets.TapNetwork
      → Bool
      → ℕ
      → Result (List VPacket) AllocationError
  unfolding distribute_from
  distribute_coins [] allocations chain_params interactive vpkt_version = err missing_inputs
  distribute_coins (first ∷ rest) [] chain_params interactive vpkt_version = err missing_allocations
  distribute_coins (first ∷ rest) (a ∷ more) chain_params interactive vpkt_version =
      distribute_from first (first ∷ rest) (a ∷ more) chain_params interactive vpkt_version
