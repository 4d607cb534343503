-- ===== src/TxMerkle.antt =====
-- tap-onchain/src/proof/merkle.rs and tap-primitives/src/proof/tx_merkle.rs: proofs that a
-- transaction is in a block. The hash function is double SHA-256, taken as a parameter.
pub mod Levels
pub mod Inclusion
pub mod Binding
mod Examples
use rust_tap.Common.{ℕ, zero, suc, ◌+◌, ◌-◌, ◌/◌, ◌%◌, Bool, true, false, ◌&&◌, Option, none, some}
use rust_tap.Common.{List, [], ◌∷◌, ◌++◌, ltb, leb, ◌==◌, if◌then◌else◌, bytes_eq, length, get_or}
use rust_tap.Common.{replicate}
use rust_tap.Mssmt.Hashing.{Sha256}

-- The 32 bytes of a hash.
abbrev pub Hash32 : Type 0
Hash32 = List ℕ

-- `true`: our node is on the left, the sibling on the right.
pub record TxMerkleProof : Type 0 where
  pub nodes : List Hash32
  pub bits : List Bool

abbrev pub merkle_proof_max_nodes : ℕ
merkle_proof_max_nodes = 15

-- `TxMerkleProof::len`
unfoldable pub proof_len : TxMerkleProof → ℕ
proof_len p = length p.nodes

-- `TxMerkleProof::is_empty`
unfoldable pub is_empty_proof : TxMerkleProof → Bool
is_empty_proof p = length p.nodes == 0

-- `*level.last().unwrap()`
unfoldable pub last_of : List Hash32 → Hash32
last_of level = get_or level (length level - 1) []

-- An odd level gets its last entry once more.
unfoldable pub pad : List Hash32 → List Hash32
unfolding last_of
pad level = if length level % 2 == 0 then level else level ++ (last_of level ∷ [])

unfoldable pub sibling_index : ℕ → ℕ
sibling_index index = if index % 2 == 0 then index + 1 else index - 1

module _ ⦃sha256d : Sha256⦄ where
  -- The loop over `level.chunks(2)`. A padded level leaves no chunk of one entry, which would be
  -- an index out of range.
  unfoldable pub pair_up : List Hash32 → List Hash32
  pair_up [] = []
  pair_up (a ∷ []) = []
  pair_up (a ∷ b ∷ rest) = sha256d.digest (a ++ b) ∷ pair_up rest

  -- `while level.len() > 1`, with fuel: the siblings and the bits that the rounds push.
  unfoldable pub build_loop : ℕ → List Hash32 → ℕ → List Hash32 × List Bool
  build_loop zero level index = ([], [])
  build_loop (suc fuel) level index =
      let padded = pad level in
      let later = build_loop fuel (pair_up padded) (index / 2) in
      let sibling = get_or padded (sibling_index index) [] in
      if ltb 1 (length level) then (sibling ∷ later.0, (index % 2 == 0) ∷ later.1) else ([], [])

  -- The level that the same loop ends with.
  unfoldable pub root_level : ℕ → List Hash32 → List Hash32
  root_level zero level = level
  root_level (suc fuel) level =
      let later = root_level fuel (pair_up (pad level)) in
      if ltb 1 (length level) then later else level

  -- An index past the end, so also any index into no transactions, has no proof.
  -- The source's case of one transaction is the loop that makes no round. Each round shortens the
  -- level, so as many rounds as transactions are enough.
  unfoldable pub build_tx_merkle_proof : List Hash32 → ℕ → Option TxMerkleProof
  unfolding build_loop
  build_tx_merkle_proof tx_hashes tx_index =
      if leb (length tx_hashes) tx_index
      then none
      else let (nodes, bits) = build_loop (length tx_hashes) tx_hashes tx_index in
        some (record { nodes = nodes; bits = bits })

  unfoldable pub compute_merkle_root : List Hash32 → Hash32
  unfolding root_level
  compute_merkle_root tx_hashes =
      if length tx_hashes == 0
      then replicate 32 0
      else get_or (root_level (length tx_hashes) tx_hashes) 0 []

  unfoldable pub climb_once : Hash32 → Hash32 → Bool → Hash32
  climb_once current sibling is_left =
      if is_left then sha256d.digest (current ++ sibling) else sha256d.digest (sibling ++ current)

  -- The loop over `nodes.zip(bits)`.
  unfoldable pub climb : Hash32 → List Hash32 → List Bool → Hash32
  unfolding climb_once
  climb current [] bits = current
  climb current (n ∷ nodes) [] = current
  climb current (n ∷ nodes) (b ∷ bits) = climb (climb_once current n b) nodes bits

  unfoldable pub verify : TxMerkleProof → Hash32 → Hash32 → Bool
  unfolding climb
  verify p tx_hash merkle_root =
      if length p.nodes == length p.bits
      then bytes_eq (climb tx_hash p.nodes p.bits) merkle_root
      else false
