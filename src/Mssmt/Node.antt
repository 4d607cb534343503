-- ===== src/Mssmt/Node.antt =====
-- tap-primitives/src/mssmt/node.rs: the nodes, their hashes and sums, and the empty tree.
-- A `NodeHash` and a key are lists of 32 bytes. The caches of hashes and sums are left out: they
-- hold what is computed here.
pub mod Compaction
mod Examples
use rust_tap.Common.{ℕ, zero, suc, ◌+◌, ◌-◌, ◌*◌, ◌/◌, ◌%◌, ◌^◌, Bool, true, false, ◌&&◌}
use rust_tap.Common.{Option, none, some, List, [], ◌∷◌, ◌++◌, ◌==◌, if◌then◌else◌, bytes_eq, get_or}
use rust_tap.Common.Bytes.{to_be_bytes}
use rust_tap.Mssmt.Hashing.{Sha256}

abbrev pub hash_size : ℕ
hash_size = 32

abbrev pub max_tree_levels : ℕ
max_tree_levels = hash_size * 8

abbrev pub last_bit_index : ℕ
last_bit_index = max_tree_levels - 1

abbrev pub NodeHash : Type 0
NodeHash = List ℕ

abbrev pub Key : Type 0
Key = List ℕ

-- Bit 0 is the lowest bit of byte 0. A key has 32 bytes, so the default is not reached.
unfoldable pub bit_index : ℕ → Key → ℕ
bit_index idx key = get_or key (idx / 8) 0 / 2 ^ (idx % 8) % 2

pub record LeafNode : Type 0 where
  pub value : List ℕ
  pub sum : ℕ

pub record ComputedNode : Type 0 where
  pub hash : NodeHash
  pub sum : ℕ

pub record CompactedLeafNode : Type 0 where
  pub leaf : LeafNode
  pub key : Key
  pub compacted_hash : NodeHash

-- `branch l r` is `Node::Branch(BranchNode { left: l, right: r })`.
pub data Node : Type 0 where
  leaf : LeafNode → Node
  branch : Node → Node → Node
  compacted : CompactedLeafNode → Node
  computed : ComputedNode → Node

pub record BranchNode : Type 0 where
  pub left : Node
  pub right : Node

abbrev pub branch_node : BranchNode → Node
branch_node b = branch b.left b.right

unfoldable pub as_branch : Node → Option BranchNode
as_branch (branch l r) = some (record { left = l; right = r })
as_branch _ = none

unfoldable pub as_leaf : Node → Option LeafNode
as_leaf (leaf n) = some n
as_leaf _ = none

abbrev pub empty_leaf : LeafNode
empty_leaf = record { value = []; sum = 0 }

abbrev is_nil : List ℕ → Bool
is_nil [] = true
is_nil (x ∷ xs) = false

unfoldable pub is_empty : LeafNode → Bool
is_empty n = is_nil n.value && n.sum == 0

unfoldable pub is_empty_leaf : Node → Bool
unfolding is_empty
is_empty_leaf (leaf n) = is_empty n
is_empty_leaf _ = false

-- The sum of two `u64` as release builds compute it: modulo 2 ^ 64.
abbrev pub add_u64 : ℕ → ℕ → ℕ
add_u64 a b = (a + b) % 2 ^ 64

unfoldable pub node_sum : Node → ℕ
node_sum (leaf n) = n.sum
node_sum (branch l r) = add_u64 (node_sum l) (node_sum r)
node_sum (compacted n) = n.leaf.sum
node_sum (computed n) = n.sum

module _ ⦃sha256 : Sha256⦄ where
  unfoldable pub leaf_hash : LeafNode → NodeHash
  leaf_hash n = sha256.digest (n.value ++ to_be_bytes 8 n.sum)

  unfoldable pub branch_hash : NodeHash → NodeHash → ℕ → NodeHash
  branch_hash left_hash right_hash sum =
      sha256.digest (left_hash ++ (right_hash ++ to_be_bytes 8 sum))

  unfoldable pub node_hash : Node → NodeHash
  node_hash (leaf n) = leaf_hash n
  node_hash (branch l r) =
      branch_hash (node_hash l) (node_hash r) (add_u64 (node_sum l) (node_sum r))
  node_hash (compacted n) = n.compacted_hash
  node_hash (computed n) = n.hash

  unfoldable pub is_equal_node : Node → Node → Bool
  is_equal_node a b = bytes_eq (node_hash a) (node_hash b) && node_sum a == node_sum b

  -- The empty subtree with `k` levels of branches; children are kept as hash and sum.
  unfoldable pub empty_subtree : ℕ → Node
  unfolding node_hash node_sum
  empty_subtree zero = leaf empty_leaf
  empty_subtree (suc k) =
      let below = empty_subtree k in
      let child = computed (record { hash = node_hash below; sum = node_sum below }) in
      branch child child

  -- `empty_tree()[level]`, for a level of 0 to 256.
  abbrev pub empty_tree : ℕ → Node
  empty_tree level = empty_subtree (max_tree_levels - level)

  unfoldable pub empty_tree_root_hash : NodeHash
  empty_tree_root_hash = node_hash (empty_tree 0)

  -- One round of the loop of `compute_compacted_hash`: the hash and sum at level `i` from those
  -- at level `i + 1`, with the empty node of level `i + 1` beside it.
  unfoldable pub compact_round : Key → ℕ → NodeHash × ℕ → NodeHash × ℕ
  compact_round key i (current_hash, current_sum) =
      let sibling_hash = node_hash (empty_tree (i + 1)) in
      let sibling_sum = node_sum (empty_tree (i + 1)) in
      if bit_index i key == 0
      then (let sum = add_u64 current_sum sibling_sum in
          (branch_hash current_hash sibling_hash sum, sum))
      else (let sum = add_u64 sibling_sum current_sum in
          (branch_hash sibling_hash current_hash sum, sum))

  -- `n` rounds, at the levels `height + n - 1` down to `height`.
  unfoldable pub compact_loop : ℕ → ℕ → Key → NodeHash × ℕ → NodeHash × ℕ
  unfolding compact_round
  compact_loop zero height key current = current
  compact_loop (suc n) height key current =
      compact_loop n height key (compact_round key (height + n) current)

  unfoldable pub compute_compacted_hash : ℕ → Key → LeafNode → NodeHash
  unfolding compact_loop
  compute_compacted_hash height key n =
      (compact_loop (max_tree_levels - height) height key (leaf_hash n, n.sum)).0

  unfoldable pub new_compacted : ℕ → Key → LeafNode → CompactedLeafNode
  new_compacted height key n = record {
    leaf = n;
    key = key;
    compacted_hash = compute_compacted_hash height key n;
  }

  -- The node at level `i` with `current` on the side that the key's bit names.
  unfoldable pub join : Key → ℕ → Node → Node → Node
  join key i current sibling =
      if bit_index i key == 0 then branch current sibling else branch sibling current

  unfoldable pub extract_loop : ℕ → ℕ → Key → Node → Node
  unfolding join
  extract_loop zero height key current = current
  extract_loop (suc n) height key current =
      extract_loop n height key (join key (height + n) current (empty_tree (height + n + 1)))

  unfoldable pub extract : CompactedLeafNode → ℕ → Node
  unfolding extract_loop
  extract c height = extract_loop (max_tree_levels - height) height c.key (leaf c.leaf)
