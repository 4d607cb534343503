-- ===== src/Channel/Allocation/Scripts.antt =====
-- tap-ldk/src/channel/allocation.rs: the scripts of the outputs, and the match with an output.
use rust_tap.Common.{
  ℕ, Bool, ◌&&◌, Option, none, some, List, ◌∷◌, Result, ok, err, ensure, ok_or, ◌>>=◌, ◌>>◌,
}
use rust_tap.Common.{◌==◌, if◌then◌else◌, length, bytes_eq}
use rust_tap.Channel.Interface.{ChannelAssets, TapscriptPreimage}
use rust_tap.Channel.Allocation.{
  Allocation, AllocationError, AllocationText, invalid_key, invalid_preimage, key_length, said,
  commitment_not_set, missing_internal_key,
}
unfoldable use rust_tap.Channel.Allocation.{is_no_assets, tapscript_sibling}

-- `map_err` into an error with the text.
abbrev map_text {ℓ} :
    {A : Type ℓ} → (AllocationText → AllocationError) → Result A (List ℕ) → Result A AllocationError
map_text f (ok a) = ok a
map_text f (err e) = err (f (said e))

unfoldable pub pay_to_taproot_script : List ℕ → List ℕ
pay_to_taproot_script output_key = 0x51 ∷ 0x20 ∷ output_key

module _ ⦃assets : ChannelAssets⦄ where
  abbrev sibling_hash_of : Option TapscriptPreimage → Result (Option (List ℕ)) AllocationError
  sibling_hash_of none = ok none
  sibling_hash_of (some preimage) = do
    h ← map_text invalid_preimage (assets.tap_hash preimage)
    ok (some h)

  -- The script of an output without assets: its sort key, which must be a key.
  unfoldable pub anchor_pk_script : Allocation → Result (List ℕ) AllocationError
  unfolding pay_to_taproot_script
  anchor_pk_script a = do
    ensure (length a.sort_taproot_key_bytes == 32)
        (invalid_key (key_length (length a.sort_taproot_key_bytes)))
    checked_key ← map_text invalid_key (assets.parse_pub_key (0x02 ∷ a.sort_taproot_key_bytes))
    ok (pay_to_taproot_script a.sort_taproot_key_bytes)

  unfoldable pub commitment_pk_script : Allocation → Result (List ℕ) AllocationError
  unfolding pay_to_taproot_script tapscript_sibling
  commitment_pk_script a = do
    commitment ← ok_or a.output_commitment commitment_not_set
    sibling ← tapscript_sibling a
    sibling_hash ← sibling_hash_of sibling
    let root = assets.tapscript_root commitment sibling_hash
    internal_key ← ok_or a.internal_key missing_internal_key
    internal_pub_key ← map_text invalid_key (assets.parse_pub_key internal_key)
    output_key ←
        map_text invalid_key
          (assets.compute_taproot_output_key (assets.x_only_public_key internal_pub_key) root)
    ok (pay_to_taproot_script output_key)

  unfoldable pub final_pk_script : Allocation → Result (List ℕ) AllocationError
  unfolding is_no_assets anchor_pk_script commitment_pk_script
  final_pk_script a =
      if is_no_assets a.alloc_type then anchor_pk_script a else commitment_pk_script a

  unfoldable pub aux_leaf : Allocation → Result (List ℕ) AllocationError
  aux_leaf a = do
    commitment ← ok_or a.output_commitment commitment_not_set
    ok (assets.tap_leaf commitment)

  -- The `i64` value is given as the `u64` of the same bits, so that `as i64` is the identity.
  unfoldable pub matches_output : Allocation → List ℕ → ℕ → ℕ → ℕ → Result Bool AllocationError
  unfolding final_pk_script
  matches_output a pk_script value cltv htlc_index = do
    script ← final_pk_script a
    ok (
        bytes_eq pk_script script
        && value == a.btc_amount
        && cltv == a.sort_cltv
        && htlc_index == a.htlc_index)
