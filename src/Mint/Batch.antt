-- ===== src/Mint/Batch.antt =====
-- tap-onchain/src/mint/batch.rs. A `HashMap` is a list of keys and values; a new key goes to the
-- end, and iteration is in the list's order.
use rust_tap.Common.{ℕ, ◌+◌, ◌%◌, ◌^◌, Bool, true, false, ◌||◌, Option, none, some}
use rust_tap.Common.{List, [], ◌∷◌, ◌++◌, Result, ok, ensure, ◌>>◌}
use rust_tap.Common.{◌==◌, if◌then◌else◌, bytes_eq, length, not}
use rust_tap.Mint.Interface.{Name, Assets, OutPoint, KeyDescriptor}
use rust_tap.Mint.Seedling.{BatchState, pending, frozen, committed, broadcast, confirmed, finalized}
use rust_tap.Mint.Seedling.{seedling_cancelled, sprout_cancelled, Intent, Fault}
use rust_tap.Mint.Seedling.{batch_not_pending, duplicate_seedling}
unfoldable use rust_tap.Mint.Seedling.{validate}

-- The `#[repr(u8)]` numbers.
unfoldable pub discriminant : BatchState → ℕ
discriminant pending = 0
discriminant frozen = 1
discriminant committed = 2
discriminant broadcast = 3
discriminant confirmed = 4
discriminant finalized = 5
discriminant seedling_cancelled = 6
discriminant sprout_cancelled = 7

unfoldable pub state_eq : BatchState → BatchState → Bool
unfolding discriminant
state_eq a b = discriminant a == discriminant b

unfoldable pub is_terminal : BatchState → Bool
unfolding state_eq
is_terminal s = state_eq s finalized || state_eq s seedling_cancelled || state_eq s sprout_cancelled

unfoldable pub can_add_seedlings : BatchState → Bool
unfolding state_eq
can_add_seedlings s = state_eq s pending

unfoldable pub can_cancel : BatchState → Bool
unfolding state_eq
can_cancel s = state_eq s pending || state_eq s frozen || state_eq s committed

abbrev is_some {ℓ} : {A : Type ℓ} → Option A → Bool
is_some none = false
is_some (some a) = true

-- `HashMap::get`, and `HashMap::insert` on a key that the map does not have.
unfoldable pub find {ℓ} : {V : Type ℓ} → Name → List (Name × V) → Option V
find name [] = none
find name ((k, v) ∷ rest) = let later = find name rest in if bytes_eq k name then some v else later

unfoldable pub contains_key {ℓ} : {V : Type ℓ} → Name → List (Name × V) → Bool
unfolding find
contains_key name entries = is_some (find name entries)

module _ ⦃assets : Assets⦄ where
  abbrev pub Entry : Type 0
  Entry = Name × Intent

  pub record MintingBatch : Type 0 where
    pub state : BatchState
    pub batch_key : KeyDescriptor
    pub seedlings : List Entry
    pub genesis_psbt : Option (List ℕ)
    pub root_asset_commitment : Option assets.TapCommitmentTree
    pub sprouted_assets : List assets.Asset
    pub signed_tx : Option (List ℕ)
    pub genesis_outpoint : Option OutPoint
    pub confirmation : Option assets.TxConfirmation
    pub mint_output_index : Option ℕ
    pub height_hint : ℕ

  unfoldable pub new_batch : KeyDescriptor → MintingBatch
  new_batch batch_key = record {
    state = pending;
    batch_key = batch_key;
    seedlings = [];
    genesis_psbt = none;
    root_asset_commitment = none;
    sprouted_assets = [];
    signed_tx = none;
    genesis_outpoint = none;
    confirmation = none;
    mint_output_index = none;
    height_hint = 0;
  }

  -- The batch after a call that succeeds; one that fails leaves it as it was.
  unfoldable pub add_seedling : MintingBatch → Intent → Result MintingBatch Fault
  unfolding can_add_seedlings validate contains_key
  add_seedling batch seedling = do
    ensure (can_add_seedlings batch.state) (batch_not_pending batch.state)
    validate seedling
    ensure (not (contains_key seedling.asset_name batch.seedlings))
        (duplicate_seedling seedling.asset_name)
    ok (record batch { seedlings = batch.seedlings ++ ((seedling.asset_name, seedling) ∷ []) })

  unfoldable pub num_seedlings : MintingBatch → ℕ
  num_seedlings batch = length batch.seedlings

  unfoldable pub amounts : List Entry → ℕ
  amounts [] = 0
  amounts ((name, s) ∷ rest) = s.amount + amounts rest

  -- The sum of `u64`s as release builds compute it.
  unfoldable pub total_amount : MintingBatch → ℕ
  unfolding amounts
  total_amount batch = amounts batch.seedlings % 2 ^ 64
