-- ===== src/Mint/Planter/Examples.antt =====
-- The theorems on the planter at concrete inputs.
use rust_tap.Common.{ℕ, ◌+◌, ◌<◌, ◌≡◌, refl, arith, false, none, some, List, [], ◌∷◌}
use rust_tap.Common.{length, unwrap_or, ok, err, bytes_eq}
use rust_tap.Mint.Interface.{Assets, OutPoint, Genesis}
use rust_tap.Mint.Seedling.{
  Intent, new_normal, new_collectible, validate, invalid_seedling, empty_name, batch_not_pending,
  frozen,
}
use rust_tap.Mint.Seedling.{validate_meta}
use rust_tap.Mint.Batch.{
  MintingBatch, find, add_seedling, contains_key, can_add_seedlings, state_eq, discriminant,
  can_cancel, new_batch,
}
use rust_tap.Mint.Planter.{
  Planter, queue_seedling, freeze_batch, commit_batch, recommit_batch, cancel_batch, new_planter,
}
use rust_tap.Mint.Planter.{
  enqueue, ensure_batch, open_batch, settle, with_batch, sprout, sprout_asset, build_commitment,
  commit_each,
}
use rust_tap.Mint.Planter.Soundness.{IsSoundOrNone, start, step, queue, freeze, commit}
use rust_tap.Mint.Planter.Reachable.{Reach-IsSound}
use rust_tap.Mint.Planter.Recommit.{recommit_batch-commit_batch, freeze_batch-cancel_batch}
use rust_tap.Mint.Planter.Queue.{find-queue_seedling}

-- A commitment is the list of what it commits to; a key ring counts its keys.
instance toy_assets : Assets
toy_assets = record {
  MetaReveal = List ℕ;
  ScriptKey = List ℕ;
  Asset = Genesis × ℕ;
  AssetCommitmentTree = ℕ;
  TapCommitmentTree = List ℕ;
  Message = Unit {0};
  ChainError = Unit {0};
  KeyRing = ℕ;
  TxConfirmation = Unit {0};
  meta_fault = λ m. none;
  meta_hash_of = λ m. m;
  bip86 = λ k. 2 ∷ k;
  new_genesis = λ g amount key. (g, amount);
  commit_asset = λ a. ok a.1;
  commit_all = λ trees. ok trees;
  derive_next_key =
      λ n family. (n + 1, ok (record { family = family; index = n; pub_key = n ∷ [] }));
}

abbrev coin : Intent
coin = new_normal (99 ∷ []) 500

abbrev art : Intent
art = new_collectible (97 ∷ [])

abbrev at : ℕ → OutPoint
at n = record { txid = []; vout = n }

abbrev keys : toy_assets.KeyRing
unfolding toy_assets
keys = 7

abbrev queued : Planter
queued = (queue_seedling (queue_seedling (new_planter keys) coin).0 art).0

abbrev ready : Planter
ready = (freeze_batch queued).0

no_name :
    (queue_seedling (new_planter keys) (new_normal [] 5)).1 ≡ err (invalid_seedling empty_name)
unfolding toy_assets queue_seedling enqueue validate new_normal
no_name = refl

late : (queue_seedling ready coin).1 ≡ err (batch_not_pending frozen)
unfolding toy_assets queue_seedling enqueue ensure_batch open_batch new_batch settle add_seedling
    validate validate_meta new_normal new_collectible new_planter can_add_seedlings state_eq
    discriminant contains_key find freeze_batch with_batch bytes_eq
late = refl

committed_once : (commit_batch ready (at 1) 0).1 ≡ ok tt
unfolding toy_assets queue_seedling enqueue ensure_batch open_batch new_batch settle add_seedling
    validate validate_meta new_normal new_collectible new_planter can_add_seedlings state_eq
    discriminant contains_key find freeze_batch with_batch bytes_eq commit_batch sprout sprout_asset
    build_commitment commit_each
committed_once = refl

committed_again : (commit_batch ready (at 2) 1).1 ≡ ok tt
unfolding toy_assets queue_seedling enqueue ensure_batch open_batch new_batch settle add_seedling
    validate validate_meta new_normal new_collectible new_planter can_add_seedlings state_eq
    discriminant contains_key find freeze_batch with_batch bytes_eq commit_batch sprout sprout_asset
    build_commitment commit_each
committed_again = refl

Reach-IsSound_example : IsSoundOrNone (commit_batch ready (at 1) 0).0.pending_batch
Reach-IsSound_example =
    Reach-IsSound keys (commit_batch ready (at 1) 0).0
      (step (step (step (step start (queue coin)) (queue art)) freeze) (commit (at 1) 0))

recommit_batch-commit_batch_example :
    recommit_batch (commit_batch ready (at 1) 0).0 (at 2) 1 ≡ commit_batch ready (at 2) 1
recommit_batch-commit_batch_example =
    recommit_batch-commit_batch ready (at 1) (at 2) 0 1 committed_once committed_again

abbrev the_batch : MintingBatch
the_batch =
    unwrap_or queued.pending_batch (new_batch (record { family = 0; index = 0; pub_key = [] }))

held : queued.pending_batch ≡ some the_batch
unfolding toy_assets queue_seedling enqueue ensure_batch open_batch new_batch settle add_seedling
    validate validate_meta new_normal new_collectible new_planter can_add_seedlings state_eq
    discriminant contains_key find freeze_batch with_batch bytes_eq cancel_batch can_cancel
held = refl

held_some : 0 < length the_batch.seedlings
unfolding toy_assets queue_seedling enqueue ensure_batch open_batch new_batch settle add_seedling
    validate validate_meta new_normal new_collectible new_planter can_add_seedlings state_eq
    discriminant contains_key find freeze_batch with_batch bytes_eq cancel_batch can_cancel
held_some = omega arith

cancelled : (cancel_batch queued).1 ≡ ok tt
unfolding toy_assets queue_seedling enqueue ensure_batch open_batch new_batch settle add_seedling
    validate validate_meta new_normal new_collectible new_planter can_add_seedlings state_eq
    discriminant contains_key find freeze_batch with_batch bytes_eq cancel_batch can_cancel
cancelled = refl

freeze_batch-cancel_batch_example : freeze_batch (cancel_batch queued).0 ≡ freeze_batch queued
freeze_batch-cancel_batch_example =
    freeze_batch-cancel_batch queued the_batch held held_some cancelled

abbrev later : Intent
later = new_normal (108 ∷ []) 9

queued_again : (queue_seedling queued later).1 ≡ ok tt
unfolding toy_assets queue_seedling enqueue ensure_batch open_batch new_batch settle add_seedling
    validate validate_meta new_normal new_collectible new_planter can_add_seedlings state_eq
    discriminant contains_key find freeze_batch with_batch bytes_eq cancel_batch can_cancel
queued_again = refl

names_differ : bytes_eq later.asset_name (99 ∷ []) ≡ false
unfolding bytes_eq new_normal
names_differ = refl

find-queue_seedling_example :
    (b' : MintingBatch) × ((queue_seedling queued later).0.pending_batch ≡ some b')
    × (find later.asset_name b'.seedlings ≡ some later)
    × (find (99 ∷ []) b'.seedlings ≡ find (99 ∷ []) the_batch.seedlings)
find-queue_seedling_example =
    find-queue_seedling queued later the_batch (99 ∷ []) held queued_again names_differ
