-- ===== src/Vm/Examples.antt =====
-- The theorems on the engine at concrete inputs.
use rust_tap.Common.{
  ℕ, ◌+◌, ◌≡◌, refl, arith, false, Option, none, some, List, [], ◌∷◌, replicate, ok, err, bytes_eq,
  ◌⊎◌, ◌↔◌, All,
}
use rust_tap.Mint.Interface.{Genesis, normal}
use rust_tap.Mssmt.Hashing.{Collision}
use rust_tap.Mssmt.Toy.{toy_sha256}
use rust_tap.Mssmt.Node.{LeafNode, ComputedNode, computed}
use rust_tap.Mssmt.Proof.{Proof}
use rust_tap.Mssmt.Proof.Binding.{HasHash, IsValidProof}
use rust_tap.Mssmt.Proof.Roots.{own_root, verify_merkle_proof-own_root}
use rust_tap.Vm.{
  Asset, PrevId, Witness, SplitAsset, Virtual, has_genesis_witness, locator_hash, amount_mismatch,
  has_genesis_witness_for_group, has_split_commitment_witness, prev_asset_at, asset_to_leaf,
}
use rust_tap.Vm.Engine.{
  Engine, execute, validate_split, locator_of, matches_asset_params, split_no_witness,
}
use rust_tap.Vm.Transition.{IsTransition}
use rust_tap.Vm.Acceptance.{execute_iff}
use rust_tap.Vm.Splits.{validate_split-binding}

abbrev genesis : Genesis
genesis = record {
  first_prev_out = record { txid = replicate 32 1; vout = 0 };
  tag = 97 ∷ [];
  meta_hash = [];
  output_index = 0;
  asset_type = normal;
}

abbrev prev : PrevId
prev = record {
  out_point = record { txid = replicate 32 2; vout = 0 };
  id = 97 ∷ [];
  script_key = 2 ∷ 7 ∷ [];
}

abbrev asset : ℕ → List ℕ → List Witness → Asset
asset amount key witnesses = record {
  asset_version = 0;
  genesis = genesis;
  amount = amount;
  lock_time = 0;
  relative_lock_time = 0;
  prev_witnesses = witnesses;
  split_commitment_root = none;
  script_version = 0;
  script_key = record { pub_key = key; tweaked = none };
  group_key = none;
  unknown_odd_types = [];
}

abbrev amounts_of : List (PrevId × Asset) → ℕ
amounts_of [] = 0
amounts_of ((p, a) ∷ rest) = a.amount + amounts_of rest

abbrev value_of : Asset → ℕ
value_of a = elim a.split_commitment_root [ none ↦ a.amount | some root ↦ root.1 ]

abbrev coin : LeafNode
coin = record { value = 1 ∷ 2 ∷ []; sum = 7 }

-- A transaction is the value of its output; a spend is accepted whatever it says.
instance toy_virtual : Virtual
toy_virtual = record {
  Transaction = ℕ;
  TxOut = ℕ;
  SigHashType = ℕ;
  nums_key = 2 ∷ 0 ∷ [];
  genesis_id = λ g. g.tag;
  encode_asset_leaf = λ a. ok (1 ∷ 2 ∷ []);
  virtual_tx = λ a prevs. ok (value_of a, [], amounts_of prevs);
  output_value = λ tx. tx;
  virtual_tx_with_input = λ tx lock relative idx witness. tx;
  input_prev_out = λ a. ok a.amount;
  default_sig_hash = 0;
  taproot_witness_sig_hash_type = λ sig. ok 0;
  input_key_spend_sighash = λ tx prev new idx kind. ok [];
  input_group_genesis_key_spend_sighash = λ tx new kind. ok [];
  validate_witness = λ sighash w a. ok tt;
  validate_script_spend = λ tx out w a. ok tt;
}

abbrev spend : Witness
spend = record { prev_id = some prev; tx_witness = (1 ∷ []) ∷ []; split_commitment = none }

abbrev transfer : ℕ → Engine
transfer amount = record {
  new_asset = asset amount (2 ∷ 8 ∷ []) (spend ∷ []);
  split_assets = [];
  prev_assets = (prev, asset 10 (2 ∷ 7 ∷ []) []) ∷ [];
}

no_genesis : has_genesis_witness (transfer 10).new_asset ≡ false
unfolding has_genesis_witness bytes_eq
no_genesis = refl

no_group : has_genesis_witness_for_group (transfer 10).new_asset ≡ false
unfolding has_genesis_witness_for_group bytes_eq
no_group = refl

accepted : execute (transfer 10) ≡ ok tt
unfolding execute bytes_eq toy_virtual
accepted = refl

inflated : execute (transfer 11) ≡ err (amount_mismatch 10 11)
unfolding execute bytes_eq toy_virtual
inflated = refl

execute_iff_example : (execute (transfer 10) ≡ ok tt) ↔ IsTransition (transfer 10)
execute_iff_example = execute_iff (transfer 10) no_genesis no_group

abbrev sibling : ComputedNode
sibling = record { hash = replicate 32 9; sum = 4 }

abbrev siblings : Proof
siblings = record { nodes = replicate 256 (computed sibling) }

abbrev split_witness : Witness
split_witness = record {
  prev_id = some prev;
  tx_witness = [];
  split_commitment = some (record { proof = siblings; root_asset = [] });
}

abbrev piece : SplitAsset
piece = record { asset = asset 7 (2 ∷ 9 ∷ []) (split_witness ∷ []); output_index = 1 }

abbrev split_key : List ℕ
split_key = locator_hash (locator_of piece)

abbrev root_of_split : Proof → LeafNode → List ℕ → Option (List ℕ × ℕ)
root_of_split p n key = elim (own_root key n p) [ computed c ↦ some (c.hash, c.sum) | _ ↦ none ]

abbrev splitting : Engine
splitting = record {
  new_asset = record (asset 3 (2 ∷ 8 ∷ []) (spend ∷ [])) {
    split_commitment_root = root_of_split siblings coin split_key;
  };
  split_assets = piece ∷ [];
  prev_assets = (prev, asset 10 (2 ∷ 7 ∷ []) []) ∷ [];
}

replicate-HasHash : (k : ℕ) → All HasHash (replicate k (computed sibling))
replicate-HasHash ℕ.zero = tt
replicate-HasHash (ℕ.suc k) = (refl, replicate-HasHash k)

siblings-IsValidProof : IsValidProof siblings
siblings-IsValidProof = record { count = refl; hashes = replicate-HasHash 256 }

committed : validate_split splitting piece ≡ ok tt
unfolding validate_split has_split_commitment_witness prev_asset_at matches_asset_params bytes_eq
    asset_to_leaf toy_virtual
committed = rw (verify_merkle_proof-own_root split_key coin siblings refl) refl

validate_split-binding_example :
    ((piece.asset.amount ≡ piece.asset.amount)
      × (toy_virtual.encode_asset_leaf (split_no_witness splitting.new_asset piece.asset)
          ≡ toy_virtual.encode_asset_leaf (split_no_witness splitting.new_asset piece.asset)))
    ⊎ Collision toy_sha256
validate_split-binding_example =
    validate_split-binding splitting piece piece split_witness split_witness
      (record { proof = siblings; root_asset = [] }) (record { proof = siblings; root_asset = [] })
      committed committed refl refl refl refl refl siblings-IsValidProof siblings-IsValidProof
      (omega arith) (omega arith)
