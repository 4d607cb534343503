-- ===== src/Mint/Planter.antt =====
-- tap-onchain/src/mint/planter.rs. Each operation gives the planter after the call, which an error
-- may have changed too, and the call's result. The chain bridge and the wallet, which no operation
-- here uses, are left out, and so are the borrowed batches that some calls return.
pub mod Soundness
pub mod Commitment
pub mod Seedlings
pub mod Reachable
pub mod Recommit
pub mod Queue
mod Examples
use rust_tap.Common.{
  ℕ, Bool, true, false, not, Option, none, some, List, [], ◌∷◌, Result, ok, err, ensure,
}
use rust_tap.Common.{
  ◌>>=◌, ◌>>◌, ok_or, ◌==◌, if◌then◌else◌, bytes_eq, length, map, replicate, unwrap_or, map_option,
}
use rust_tap.Mint.Interface.{Name, Assets, OutPoint, Genesis, KeyDescriptor}
use rust_tap.Mint.Seedling.{BatchState, pending, frozen, committed, seedling_cancelled}
use rust_tap.Mint.Seedling.{
  sprout_cancelled, Seedling, Intent, Fault, no_pending_batch, empty_batch,
}
use rust_tap.Mint.Seedling.{invalid_seedling, unknown_seedling, batch_not_pending, cannot_cancel}
use rust_tap.Mint.Seedling.{chain, commitment_error}
unfoldable use rust_tap.Mint.Seedling.{validate}
use rust_tap.Mint.Batch.{MintingBatch, Entry}
unfoldable use rust_tap.Mint.Batch.{state_eq, can_cancel, add_seedling, new_batch, find}

abbrev pub taproot_assets_key_family : ℕ
taproot_assets_key_family = 212

-- `get_mut` and a write of the entry's `script_key`.
module _ ⦃assets : Assets⦄ where
  unfoldable pub assign_script_key : Name → assets.ScriptKey → List Entry → List Entry
  assign_script_key name key [] = []
  assign_script_key name key ((k, s) ∷ rest) =
      let later = assign_script_key name key rest in
      if bytes_eq k name then (k, record s { script_key = some key }) ∷ rest else (k, s) ∷ later

  pub record Planter : Type 0 where
    pub key_ring : assets.KeyRing
    pub pending_batch : Option MintingBatch

  unfoldable pub new_planter : assets.KeyRing → Planter
  new_planter key_ring = record { key_ring = key_ring; pending_batch = none }

  abbrev pub Outcome : Type 0
  Outcome = Planter × Result (Unit {0}) Fault

  -- What a call makes of the batch, or its error, which leaves the planter as it is.
  unfoldable pub settle : Planter → Result MintingBatch Fault → Outcome
  settle p (err e) = (p, err e)
  settle p (ok batch) = (record p { pending_batch = some batch }, ok tt)

  -- `self.pending_batch.as_mut().ok_or(NoPendingBatch)?`, and what the call does with the batch.
  unfoldable pub with_batch : Planter → (MintingBatch → Result MintingBatch Fault) → Outcome
  unfolding settle
  with_batch p f = settle p (ok_or p.pending_batch no_pending_batch >>= f)

  -- A new batch under the key that the key ring answered.
  unfoldable pub open_batch :
      assets.KeyRing × Result KeyDescriptor assets.ChainError → Planter × Result MintingBatch Fault
  unfolding new_batch
  open_batch (ring, err e) = (record { key_ring = ring; pending_batch = none }, err (chain e))
  open_batch (ring, ok k) =
      (record { key_ring = ring; pending_batch = some (new_batch k) }, ok (new_batch k))

  -- The pending batch, or a new one with the next key.
  unfoldable pub ensure_batch :
      assets.KeyRing → Option MintingBatch → Planter × Result MintingBatch Fault
  unfolding open_batch
  ensure_batch ring (some batch) =
      (record { key_ring = ring; pending_batch = some batch }, ok batch)
  ensure_batch ring none = open_batch (assets.derive_next_key ring taproot_assets_key_family)

  -- What follows the answer of the first `validate`.
  unfoldable pub enqueue : Planter → Intent → Result (Unit {0}) Fault → Outcome
  unfolding ensure_batch settle add_seedling
  enqueue p seedling (err e) = (p, err e)
  enqueue p seedling (ok _) =
      let (p', found) = ensure_batch p.key_ring p.pending_batch in
      settle p' (found >>= λ batch. add_seedling batch seedling)

  unfoldable pub queue_seedling : Planter → Intent → Outcome
  unfolding validate enqueue
  queue_seedling p seedling = enqueue p seedling (validate seedling)

  unfoldable pub set_seedling_script_key : Planter → Name → assets.ScriptKey → Outcome
  unfolding find assign_script_key
  set_seedling_script_key p name key = with_batch p λ batch. do
    _ ← ok_or (find name batch.seedlings) (invalid_seedling (unknown_seedling name))
    ok (record batch { seedlings = assign_script_key name key batch.seedlings })

  unfoldable pub freeze_batch : Planter → Outcome
  freeze_batch p = with_batch p λ batch. do
    ensure (not (length batch.seedlings == 0)) empty_batch
    ok (record batch { state = frozen })

  -- The loop body of `sprout`.
  unfoldable pub sprout_asset : MintingBatch → OutPoint → ℕ → Entry → assets.Asset
  sprout_asset batch genesis_point tap_output_index (name, seedling) =
      let meta_hash = unwrap_or (map_option assets.meta_hash_of seedling.meta) (replicate 32 0) in
      let script_key = unwrap_or seedling.script_key (assets.bip86 batch.batch_key.pub_key) in
      let genesis : Genesis = record {
        first_prev_out = genesis_point;
        tag = name;
        meta_hash = meta_hash;
        output_index = tap_output_index;
        asset_type = seedling.asset_type;
      } in
      assets.new_genesis genesis seedling.amount script_key

  -- The loop of `build_commitment`.
  unfoldable pub commit_each :
      List assets.Asset → Result (List assets.AssetCommitmentTree) assets.Message
  commit_each [] = ok []
  commit_each (a ∷ rest) = do
    tree ← assets.commit_asset a
    trees ← commit_each rest
    ok (tree ∷ trees)

  unfoldable pub build_commitment : List assets.Asset → Result assets.TapCommitmentTree Fault
  unfolding commit_each
  build_commitment sprouts = elim (commit_each sprouts >>= assets.commit_all) [
    | err e ↦ err (commitment_error e)
    | ok tree ↦ ok tree
  ]

  unfoldable pub sprout : MintingBatch → OutPoint → ℕ → Result MintingBatch Fault
  unfolding sprout_asset build_commitment
  sprout batch genesis_point tap_output_index =
      let sprouts = map (sprout_asset batch genesis_point tap_output_index) batch.seedlings in
      do
        tree ← build_commitment sprouts
        ok (record batch {
          root_asset_commitment = some tree;
          sprouted_assets = sprouts;
          genesis_outpoint = some genesis_point;
          mint_output_index = some tap_output_index;
        })

  unfoldable pub commit_batch : Planter → OutPoint → ℕ → Outcome
  unfolding state_eq sprout
  commit_batch p genesis_point tap_output_index = with_batch p λ batch. do
    ensure (state_eq batch.state frozen) (batch_not_pending batch.state)
    batch' ← sprout batch genesis_point tap_output_index
    ok (record batch' { state = committed })

  unfoldable pub recommit_batch : Planter → OutPoint → ℕ → Outcome
  unfolding state_eq sprout
  recommit_batch p genesis_point tap_output_index = with_batch p λ batch. do
    ensure (state_eq batch.state committed) (batch_not_pending batch.state)
    sprout batch genesis_point tap_output_index

  unfoldable pub rebuild : MintingBatch → Result (Unit {0}) Fault → Result MintingBatch Fault
  unfolding build_commitment
  rebuild batch answer = do
    _ ← answer
    tree ← build_commitment batch.sprouted_assets
    ok (record batch { root_asset_commitment = some tree })

  -- `f` is the caller's: what it changes in the assets stays changed when it or the rebuilding fails.
  unfoldable pub update_batch :
      Planter
      → (List assets.Asset → List assets.Asset × Result (Unit {0}) Fault)
      → Option MintingBatch
      → Outcome
  unfolding state_eq rebuild settle
  update_batch p f none = (p, err no_pending_batch)
  update_batch p f (some batch) =
      let (changed, answer) = f batch.sprouted_assets in
      let batch' = record batch { sprouted_assets = changed } in
      if state_eq batch.state committed
      then settle (record p { pending_batch = some batch' }) (rebuild batch' answer)
      else (p, err (batch_not_pending batch.state))

  unfoldable pub update_sprouted_assets :
      Planter → (List assets.Asset → List assets.Asset × Result (Unit {0}) Fault) → Outcome
  unfolding update_batch
  update_sprouted_assets p f = update_batch p f p.pending_batch

  unfoldable pub cancel_batch : Planter → Outcome
  unfolding can_cancel state_eq
  cancel_batch p = with_batch p λ batch. do
    ensure (can_cancel batch.state) (cannot_cancel batch.state)
    ok (record batch {
      state = if state_eq batch.state committed then sprout_cancelled else seedling_cancelled;
    })

  unfoldable pub take_batch : Planter → Planter × Option MintingBatch
  take_batch p = (record p { pending_batch = none }, p.pending_batch)
