-- ===== src/Mint/Interface.antt =====
-- What the minting code takes from elsewhere: the wallet's key ring (`KeyRing` of
-- tap-onchain/src/chain.rs), and the asset, metadata and commitment modules of tap-primitives.
use rust_tap.Common.{ℕ, List, Option, Result}

-- A `String`, as its UTF-8 bytes.
abbrev pub Name : Type 0
Name = List ℕ

pub record OutPoint : Type 0 where
  pub txid : List ℕ
  pub vout : ℕ

pub record KeyDescriptor : Type 0 where
  pub family : ℕ
  pub index : ℕ
  pub pub_key : List ℕ

pub data AssetType : Type 0 where
  normal : AssetType
  collectible : AssetType

pub data AssetVersion : Type 0 where
  v0 : AssetVersion
  v1 : AssetVersion

pub record Genesis : Type 0 where
  pub first_prev_out : OutPoint
  pub tag : Name
  pub meta_hash : List ℕ
  pub output_index : ℕ
  pub asset_type : AssetType

pub record Assets : Type 1 where
  pub MetaReveal : Type 0
  pub ScriptKey : Type 0
  pub Asset : Type 0
  pub AssetCommitmentTree : Type 0
  pub TapCommitmentTree : Type 0
  pub Message : Type 0
  pub ChainError : Type 0
  pub KeyRing : Type 0
  pub TxConfirmation : Type 0
  -- `MetaReveal::validate`: `none` for a valid reveal, else the error's text.
  pub meta_fault : MetaReveal → Option Message
  pub meta_hash_of : MetaReveal → List ℕ
  -- `ScriptKey::bip86`
  pub bip86 : List ℕ → ScriptKey
  -- `Asset::new_genesis`
  pub new_genesis : Genesis → ℕ → ScriptKey → Asset
  -- `AssetCommitmentTree::new` on one asset, and `TapCommitmentTree::new` at version 2.
  pub commit_asset : Asset → Result AssetCommitmentTree Message
  pub commit_all : List AssetCommitmentTree → Result TapCommitmentTree Message
  -- `derive_next_key`, which may change the key ring.
  pub derive_next_key : KeyRing → ℕ → KeyRing × Result KeyDescriptor ChainError
