-- ===== src/Mint/Planter/Queue.antt =====
-- What a queued seedling leaves in the batch.
use rust_tap.Common.{◌≡◌, arith, false, some, List, [], ◌∷◌, ◌++◌}
use rust_tap.Common.{bytes_eq_refl, bytes_eq}
use rust_tap.Common.{ok}
use rust_tap.Mint.Interface.{Name, Assets}
use rust_tap.Mint.Seedling.{Intent}
unfoldable use rust_tap.Mint.Seedling.{}
use rust_tap.Mint.Batch.{MintingBatch, Entry}
unfoldable use rust_tap.Mint.Batch.{add_seedling, find, contains_key}
unfoldable use rust_tap.Mint.Batch.{}
use rust_tap.Mint.Planter.{Planter}
unfoldable use rust_tap.Mint.Planter.{ensure_batch, queue_seedling}
unfoldable use rust_tap.Mint.Planter.{}
unfoldable use rust_tap.Mint.Planter.{}
unfoldable use rust_tap.Mint.Planter.{settle, enqueue}

module _ ⦃assets : Assets⦄ where
  found_last :
      (name : Name) (entries : List Entry) (s : Intent)
      → contains_key name entries ≡ false
      → find name (entries ++ ((name, s) ∷ [])) ≡ some s
  unfolding contains_key find
  found_last name [] s h = ground (arith, bytes_eq_refl name)
  found_last name ((k, t) ∷ rest) s h = ground (arith, found_last name rest s)

  found_before :
      (name other : Name) (entries : List Entry) (s : Intent)
      → bytes_eq name other ≡ false
      → find other (entries ++ ((name, s) ∷ [])) ≡ find other entries
  unfolding find
  found_before name other [] s h = ground arith
  found_before name other ((k, t) ∷ rest) s h = ground (arith, found_before name other rest s h)

  -- A seedling that is queued onto a batch is found under its name, and what is found under any other
  -- name is as it was.
  pub find-queue_seedling :
      (p : Planter) (s : Intent) (b : MintingBatch) (other : Name)
      → p.pending_batch ≡ some b
      → (queue_seedling p s).1 ≡ ok tt
      → bytes_eq s.asset_name other ≡ false
      → (b' : MintingBatch) × ((queue_seedling p s).0.pending_batch ≡ some b')
        × (find s.asset_name b'.seedlings ≡ some s)
        × (find other b'.seedlings ≡ find other b.seedlings)
  unfolding queue_seedling enqueue ensure_batch settle add_seedling
  find-queue_seedling p s b other pend e differ = (
    record b { seedlings = b.seedlings ++ ((s.asset_name, s) ∷ []) },
    ground (arith, pend),
    found_last s.asset_name b.seedlings s (ground (arith, pend)),
    found_before s.asset_name other b.seedlings s differ,
  )
