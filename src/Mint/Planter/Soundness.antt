-- ===== src/Mint/Planter/Soundness.antt =====
-- The steps of the planter, the states that they reach, and what a sound pending batch is.
use rust_tap.Common.{ℕ, ◌<◌, ◌≡◌, false, Option, none, some, List, [], ◌∷◌}
use rust_tap.Common.{Result, ok, All, length}
use rust_tap.Mint.Interface.{Name, Assets, OutPoint}
use rust_tap.Mint.Seedling.{BatchState, frozen, committed, Intent, Fault}
unfoldable use rust_tap.Mint.Seedling.{validate}
use rust_tap.Mint.Batch.{MintingBatch, Entry}
unfoldable use rust_tap.Mint.Batch.{contains_key}
unfoldable use rust_tap.Mint.Batch.{}
use rust_tap.Mint.Planter.{Planter}
unfoldable use rust_tap.Mint.Planter.{new_planter, queue_seedling}
unfoldable use rust_tap.Mint.Planter.{set_seedling_script_key, freeze_batch, commit_batch}
unfoldable use rust_tap.Mint.Planter.{recommit_batch, build_commitment, update_sprouted_assets}
unfoldable use rust_tap.Mint.Planter.{cancel_batch, take_batch}

module _ ⦃assets : Assets⦄ where
  -- One call. An update of the sprouted assets is one that succeeds.
  pub data Step (p : Planter) : Planter → Type 0 where
    queue : (s : Intent) → Step p (queue_seedling p s).0
    set_key : (name : Name) (key : assets.ScriptKey) → Step p (set_seedling_script_key p name key).0
    freeze : Step p (freeze_batch p).0
    commit : (point : OutPoint) (index : ℕ) → Step p (commit_batch p point index).0
    recommit : (point : OutPoint) (index : ℕ) → Step p (recommit_batch p point index).0
    update :
        (f : List assets.Asset → List assets.Asset × Result (Unit {0}) Fault)
        → (update_sprouted_assets p f).1 ≡ ok tt
        → Step p (update_sprouted_assets p f).0
    cancel : Step p (cancel_batch p).0
    take_it : Step p (take_batch p).0

  pub data Reach (ring : assets.KeyRing) : Planter → Type 0 where
    start : Reach ring (new_planter ring)
    step : {p q : Planter} → Reach ring p → Step p q → Reach ring q

  -- A seedling stands under its own name and is valid.
  abbrev pub IsListed : Entry → Type 0
  IsListed (name, s) = (name ≡ s.asset_name) × (validate s ≡ ok tt)

  -- No name stands twice.
  abbrev pub IsDistinct : List Entry → Type 0
  IsDistinct [] = Unit
  IsDistinct ((name, s) ∷ rest) = (contains_key name rest ≡ false) × IsDistinct rest

  -- A committed batch holds the commitment of its sprouted assets.
  abbrev pub IsPlanted : MintingBatch → Type 0
  IsPlanted b =
      (tree : assets.TapCommitmentTree) × (b.root_asset_commitment ≡ some tree)
      × (build_commitment b.sprouted_assets ≡ ok tree)

  abbrev pub IsInState : BatchState → MintingBatch → Type 0
  IsInState frozen b = 0 < length b.seedlings
  IsInState committed b = (0 < length b.seedlings) × IsPlanted b
  IsInState _ b = Unit

  abbrev pub IsSound : MintingBatch → Type 0
  IsSound b = All IsListed b.seedlings × IsDistinct b.seedlings × IsInState b.state b

  abbrev pub IsSoundOrNone : Option MintingBatch → Type 0
  IsSoundOrNone none = Unit
  IsSoundOrNone (some b) = IsSound b
