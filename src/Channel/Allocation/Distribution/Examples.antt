-- ===== src/Channel/Allocation/Distribution/Examples.antt =====
-- The theorems on the distribution at concrete inputs.
use rust_tap.Common.{
  drop, ◌++◌, ℕ, ◌≡◌, refl, true, false, none, some, List, [], ◌∷◌, All, ok, err, bytes_eq,
}
use rust_tap.Mint.Interface.{normal}
use rust_tap.Channel.Interface.{ChannelAssets}
use rust_tap.Channel.Allocation.{
  Allocation, AllocationType, VPacket, commit_allocation_to_local, commit_allocation_to_remote,
  no_assets,
}
use rust_tap.Channel.Allocation.{input_output_sum_mismatch, missing_allocations, is_no_assets}
use rust_tap.Common.{replicate}
use rust_tap.Channel.Allocation.{invalid_key, key_length, commitment_not_set}
use rust_tap.Channel.Allocation.Scripts.{final_pk_script, matches_output}
use rust_tap.Channel.Allocation.Pieces.Filling.{created, spent}
use rust_tap.Channel.Allocation.Distribution.{distribute_coins}
use rust_tap.Channel.Allocation.Distribution.Units.{
  Distributes, Conserves, IsRooted, distribute_coins-Distributes, distribute_coins-Conserves,
  distribute_coins-IsRooted,
}

-- An asset is its id and its amount; all are of one group.
instance toy_assets : ChannelAssets
toy_assets = record {
  Asset = List ℕ × ℕ;
  TapCommitment = List ℕ;
  Bip32Derivation = ℕ;
  TaprootBip32Derivation = ℕ;
  TapNetwork = ℕ;
  asset_id = λ a. a.0;
  asset_amount = λ a. a.1;
  asset_type = λ a. normal;
  group_pub_key = λ a. some (7 ∷ []);
  asset_script_key = λ a. 2 ∷ a.0;
  tap_commitment_key = λ id group. elim group [ none ↦ id | some key ↦ key ];
  tap_leaf_hash = λ version script. version ∷ script;
  PublicKey = List ℕ;
  parse_pub_key = λ key. ok key;
  x_only_public_key = λ key. drop 1 key;
  compute_taproot_output_key = λ key root. ok (key ++ root);
  tap_hash = λ preimage. ok preimage.sibling_preimage_bytes;
  tapscript_root = λ commitment sibling. commitment;
  tap_leaf = λ commitment. commitment;
}

abbrev to : AllocationType → ℕ → ℕ → Allocation
to kind index amount = record {
  alloc_type = kind;
  output_index = index;
  split_root = false;
  internal_key = none;
  bip32_derivation = [];
  taproot_bip32_derivation = [];
  non_asset_leaves = [];
  sibling_preimage = none;
  script_key = some (record { pub_key = 3 ∷ []; tweaked = none });
  amount = amount;
  asset_version = 0;
  btc_amount = 354;
  sort_taproot_key_bytes = [];
  sort_cltv = 0;
  sequence = 0;
  lock_time = 0;
  htlc_index = 0;
  output_commitment = none;
  proof_delivery_address = none;
  alt_leaves = [];
}

abbrev coins : List toy_assets.Asset
unfolding toy_assets
coins = (1 ∷ [], 60) ∷ (2 ∷ [], 40) ∷ []

abbrev split : List Allocation
split = to commit_allocation_to_local 0 70 ∷ to commit_allocation_to_remote 1 30 ∷ []

abbrev network : toy_assets.TapNetwork
unfolding toy_assets
network = 0

abbrev summary : List VPacket → List (ℕ × ℕ)
summary [] = []
summary (p ∷ rest) = (spent p, created p) ∷ summary rest

abbrev result : List VPacket
unfolding distribute_coins toy_assets bytes_eq
result = elim (distribute_coins coins split network true 0) [ ok ps ↦ ps | err e ↦ [] ]

split_run : distribute_coins coins split network true 0 ≡ ok result
unfolding distribute_coins toy_assets bytes_eq
split_run = refl

split_amounts : summary result ≡ (60, 60) ∷ (40, 40) ∷ []
unfolding distribute_coins toy_assets bytes_eq
split_amounts = refl

no_allocations : distribute_coins coins [] network true 0 ≡ err missing_allocations
unfolding distribute_coins toy_assets bytes_eq
no_allocations = refl

too_little :
    distribute_coins coins (to commit_allocation_to_local 0 70 ∷ []) network true 0
    ≡ err (input_output_sum_mismatch 100 70)
unfolding distribute_coins toy_assets bytes_eq
too_little = refl

-- The amount of an allocation without assets counts towards the sum, and is not handed out.
abbrev with_lost_units : List Allocation
with_lost_units = to commit_allocation_to_local 0 70 ∷ to no_assets 1 30 ∷ []

abbrev lossy : List VPacket
unfolding distribute_coins toy_assets bytes_eq
lossy = elim (distribute_coins coins with_lost_units network true 0) [ ok ps ↦ ps | err e ↦ [] ]

lossy_run : distribute_coins coins with_lost_units network true 0 ≡ ok lossy
unfolding distribute_coins toy_assets bytes_eq
lossy_run = refl

lossy_amounts : summary lossy ≡ (60, 60) ∷ (40, 10) ∷ []
unfolding distribute_coins toy_assets bytes_eq
lossy_amounts = refl

distribute_coins-Distributes_example : Distributes coins split result
distribute_coins-Distributes_example =
    distribute_coins-Distributes coins split network true 0 result split_run

distribute_coins-Conserves_example : All Conserves result
unfolding toy_assets is_no_assets
distribute_coins-Conserves_example =
    distribute_coins-Conserves coins split network true 0 result refl split_run

distribute_coins-IsRooted_example : All IsRooted result
distribute_coins-IsRooted_example = distribute_coins-IsRooted coins split network 0 result split_run

-- An output without assets pays to its sort key, if that has 32 bytes.
abbrev anchor : Allocation
anchor = record (to no_assets 0 0) { sort_taproot_key_bytes = replicate 32 6 }

anchor_script : final_pk_script anchor ≡ ok (0x51 ∷ 0x20 ∷ replicate 32 6)
unfolding final_pk_script toy_assets
anchor_script = refl

short_key : final_pk_script (to no_assets 0 0) ≡ err (invalid_key (key_length 0))
unfolding final_pk_script toy_assets
short_key = refl

no_commitment : final_pk_script (to commit_allocation_to_local 0 7) ≡ err commitment_not_set
unfolding final_pk_script toy_assets
no_commitment = refl

anchor_matches : matches_output anchor (0x51 ∷ 0x20 ∷ replicate 32 6) 354 0 0 ≡ ok true
unfolding matches_output bytes_eq toy_assets
anchor_matches = refl
