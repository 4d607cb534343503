-- ===== src/Mint/Seedling.antt =====
-- tap-onchain/src/mint/seedling.rs, and the errors of the minting code (mint/planter.rs).
use rust_tap.Common.{ℕ, Bool, Option, none, some, Result, ok, err, ensure, length}
use rust_tap.Common.{◌>>◌, ◌==◌, leb, not, ◌||◌}
use rust_tap.Mint.Interface.{Name, Assets, AssetType, AssetVersion, normal, collectible, v0}

-- `BatchState`, of mint/batch.rs.
pub data BatchState : Type 0 where
  pending : BatchState
  frozen : BatchState
  committed : BatchState
  broadcast : BatchState
  confirmed : BatchState
  finalized : BatchState
  seedling_cancelled : BatchState
  sprout_cancelled : BatchState

-- The texts of `MintError::InvalidSeedling`.
pub data SeedlingFault (Message : Type 0) : Type 0 where
  empty_name : SeedlingFault Message
  name_too_long : ℕ → SeedlingFault Message
  zero_amount : SeedlingFault Message
  collectible_amount : SeedlingFault Message
  invalid_metadata : Message → SeedlingFault Message
  unknown_seedling : Name → SeedlingFault Message

pub data MintError (Message ChainError : Type 0) : Type 0 where
  invalid_seedling : SeedlingFault Message → MintError Message ChainError
  batch_not_pending : BatchState → MintError Message ChainError
  duplicate_seedling : Name → MintError Message ChainError
  no_pending_batch : MintError Message ChainError
  empty_batch : MintError Message ChainError
  chain : ChainError → MintError Message ChainError
  commitment_error : Message → MintError Message ChainError
  cannot_cancel : BatchState → MintError Message ChainError

abbrev pub max_asset_name_length : ℕ
max_asset_name_length = 64

pub record Seedling (MetaReveal ScriptKey : Type 0) : Type 0 where
  pub asset_version : AssetVersion
  pub asset_type : AssetType
  pub asset_name : Name
  pub meta : Option MetaReveal
  pub amount : ℕ
  pub enable_emission : Bool
  pub script_key : Option ScriptKey
  pub group_anchor : Option Name

abbrev is_collectible : AssetType → Bool
is_collectible normal = Bool.false
is_collectible collectible = Bool.true

module _ ⦃assets : Assets⦄ where
  abbrev pub Intent : Type 0
  Intent = Seedling assets.MetaReveal assets.ScriptKey

  abbrev pub Fault : Type 0
  Fault = MintError assets.Message assets.ChainError

  unfoldable pub new_normal : Name → ℕ → Intent
  new_normal name amount = record {
    asset_version = v0;
    asset_type = normal;
    asset_name = name;
    meta = none;
    amount = amount;
    enable_emission = Bool.false;
    script_key = none;
    group_anchor = none;
  }

  unfoldable pub new_collectible : Name → Intent
  new_collectible name = record {
    asset_version = v0;
    asset_type = collectible;
    asset_name = name;
    meta = none;
    amount = 1;
    enable_emission = Bool.false;
    script_key = none;
    group_anchor = none;
  }

  unfoldable pub validate_meta : Option assets.MetaReveal → Result (Unit {0}) Fault
  validate_meta none = ok tt
  validate_meta (some m) = elim (assets.meta_fault m) [
    | none ↦ ok tt
    | some e ↦ err (invalid_seedling (invalid_metadata e))
  ]

  unfoldable pub validate : Intent → Result (Unit {0}) Fault
  unfolding validate_meta
  validate s = do
    ensure (not (length s.asset_name == 0)) (invalid_seedling empty_name)
    ensure (leb (length s.asset_name) max_asset_name_length)
        (invalid_seedling (name_too_long (length s.asset_name)))
    ensure (not (s.amount == 0)) (invalid_seedling zero_amount)
    ensure (not (is_collectible s.asset_type) || s.amount == 1)
        (invalid_seedling collectible_amount)
    validate_meta s.meta
