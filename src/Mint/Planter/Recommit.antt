-- ===== src/Mint/Planter/Recommit.antt =====
-- What a second call makes of a committed or cancelled batch.
use rust_tap.Common.{ℕ, ◌<◌, ◌≡◌, arith, some}
use rust_tap.Common.{ok, length}
use rust_tap.Mint.Interface.{Assets, OutPoint}
unfoldable use rust_tap.Mint.Seedling.{}
use rust_tap.Mint.Batch.{MintingBatch}
unfoldable use rust_tap.Mint.Batch.{state_eq, can_cancel}
unfoldable use rust_tap.Mint.Batch.{discriminant}
use rust_tap.Mint.Planter.{Planter}
unfoldable use rust_tap.Mint.Planter.{}
unfoldable use rust_tap.Mint.Planter.{freeze_batch, sprout, commit_batch}
unfoldable use rust_tap.Mint.Planter.{recommit_batch}
unfoldable use rust_tap.Mint.Planter.{cancel_batch, with_batch, settle, sprout_asset}

module _ ⦃assets : Assets⦄ where
  -- Committing a batch and then committing it again at another outpoint and output, where both
  -- succeed, is committing it there at once.
  pub recommit_batch-commit_batch :
      (p : Planter) (point point' : OutPoint) (index index' : ℕ)
      → (commit_batch p point index).1 ≡ ok tt
      → (commit_batch p point' index').1 ≡ ok tt
      → recommit_batch (commit_batch p point index).0 point' index' ≡ commit_batch p point' index'
  unfolding commit_batch recommit_batch with_batch settle sprout state_eq discriminant sprout_asset
  recommit_batch-commit_batch p point point' index index' h k = ground arith

  -- Freezing a batch that was cancelled, with a seedling in it, succeeds: the batch is frozen as if it
  -- had not been cancelled.
  pub freeze_batch-cancel_batch :
      (p : Planter) (b : MintingBatch)
      → p.pending_batch ≡ some b
      → 0 < length b.seedlings
      → (cancel_batch p).1 ≡ ok tt
      → freeze_batch (cancel_batch p).0 ≡ freeze_batch p
  unfolding cancel_batch freeze_batch with_batch settle can_cancel state_eq discriminant
  freeze_batch-cancel_batch p b e le h = ground (arith, e)
