-- ===== src/Mssmt/Tree.antt =====
-- tap-primitives/src/mssmt/tree.rs: the full tree on a `DefaultStore`. The closures that the walks
-- call are written into the walks.
pub mod Empty
pub mod Insertion
mod Examples
use rust_tap.Common.{ℕ, zero, suc, ◌+◌, ◌-◌, ◌^◌, Bool, true, false, Option, none, some}
use rust_tap.Common.{
  List, [], ◌∷◌, Result, ok, err, ◌>>=◌, ◌>>◌, ensure, ltb, ◌==◌, if◌then◌else◌, bytes_eq,
}
use rust_tap.Mssmt.Hashing.{Sha256}
use rust_tap.Mssmt.Node.{NodeHash, Key, Node, LeafNode, BranchNode, leaf, branch, branch_node}
use rust_tap.Mssmt.Node.{empty_tree, empty_leaf, max_tree_levels}
unfoldable use rust_tap.Mssmt.Node.{
  as_branch, node_hash, node_sum, bit_index, join, is_empty, empty_subtree,
}
use rust_tap.Mssmt.Proof.{Proof}
use rust_tap.Mssmt.Store.{DefaultStore, StoreError}
unfoldable use rust_tap.Mssmt.Store.{
  get_children, root_node, update_root, insert_branch, insert_leaf,
}
unfoldable use rust_tap.Mssmt.Store.{delete_branch, delete_leaf}

pub data TreeError : Type 0 where
  store_error : StoreError → TreeError
  integer_overflow : ℕ → ℕ → TreeError

unfoldable pub check_sum_overflow_u64 : ℕ → ℕ → Result (Unit {0}) TreeError
check_sum_overflow_u64 a b = ensure (ltb (a + b) (2 ^ 64)) (integer_overflow a b)

-- `?` on a `StoreError`.
unfoldable pub from_store {ℓ} : {A : Type ℓ} → Result A StoreError → Result A TreeError
from_store (ok a) = ok a
from_store (err e) = err (store_error e)

-- A sibling and the hash of the parent, at one level.
abbrev pub Turn : Type 0
Turn = Node × NodeHash

-- `Node::Leaf(leaf) => Ok(leaf), _ => Ok(LeafNode::empty())`
unfoldable pub leaf_or_empty : Node → LeafNode
leaf_or_empty (leaf n) = n
leaf_or_empty _ = empty_leaf

module _ ⦃sha256 : Sha256⦄ where
  -- `n` rounds of `walk_down` from level `i`, with what the closures of `insert_inner` and of
  -- `merkle_proof` keep, the deepest level first.
  unfoldable pub down_loop :
      ℕ → ℕ → DefaultStore → Key → Node → List Turn → Result (Node × List Turn) StoreError
  down_loop zero i store key current turns = ok (current, turns)
  down_loop (suc n) i store key current turns = do
    children ← get_children store i (node_hash current)
    if bit_index i key == 0
        then down_loop n (i + 1) store key children.0 ((children.1, node_hash current) ∷ turns)
        else down_loop n (i + 1) store key children.1 ((children.0, node_hash current) ∷ turns)

  -- `walk_down` over the first `n` levels.
  unfoldable pub walk_store : ℕ → DefaultStore → Key → Result (LeafNode × List Turn) StoreError
  unfolding down_loop root_node leaf_or_empty
  walk_store n store key = do
    top ← root_node store
    found ← down_loop n 0 store key top []
    ok (leaf_or_empty found.0, found.1)

  unfoldable pub walk_down : DefaultStore → Key → Result (LeafNode × List Turn) TreeError
  unfolding from_store walk_store
  walk_down store key = from_store (walk_store max_tree_levels store key)

  -- What the closure of `insert_inner` does with the store at level `i`.
  unfoldable pub replace_branch : ℕ → NodeHash → Node → DefaultStore → DefaultStore
  unfolding delete_branch insert_branch as_branch
  replace_branch i prev_parent parent store =
      let empty_hash = node_hash (empty_tree i) in
      let cleared =
        if bytes_eq prev_parent empty_hash then store else delete_branch store prev_parent in
      if bytes_eq (node_hash parent) empty_hash
      then cleared
      else elim (as_branch parent) [ none ↦ cleared | some b ↦ insert_branch cleared b ]

  -- The rounds of `walk_up` at the levels `n - 1` down to 0, with that closure.
  unfoldable pub up_loop : ℕ → Key → Node → List Turn → DefaultStore → Node × DefaultStore
  unfolding join replace_branch
  up_loop zero key current turns store = (current, store)
  up_loop (suc i) key current [] store = (current, store)
  up_loop (suc i) key current ((sibling, prev_parent) ∷ turns) store =
      let parent = join key i current sibling in
      up_loop i key parent turns (replace_branch i prev_parent parent store)

  -- `FullTree::root`. The root of a `DefaultStore` is always a branch, also when it is the empty tree's,
  -- so the source's fallback, which would be `none` here, is not reached.
  unfoldable pub tree_root : DefaultStore → Result (Option BranchNode) TreeError
  unfolding from_store root_node as_branch
  tree_root store = do top ← from_store (root_node store); ok (as_branch top)

  -- `none` is the `unreachable!()` of `walk_up`.
  unfoldable pub insert_inner :
      DefaultStore → Key → LeafNode → Result (Option BranchNode × DefaultStore) TreeError
  unfolding walk_down up_loop as_branch
  insert_inner store key new_leaf = do
    walked ← walk_down store key
    ok (
        let (top, store') = up_loop max_tree_levels key (leaf new_leaf) walked.1 store in
        (as_branch top, store'))

  unfoldable pub rooted : Option BranchNode × DefaultStore → DefaultStore
  unfolding update_root
  rooted (none, store) = store
  rooted (some b, store) = update_root store b

  -- `FullTree::insert`
  unfoldable pub insert : DefaultStore → Key → LeafNode → Result DefaultStore TreeError
  unfolding insert_inner rooted root_node node_sum check_sum_overflow_u64 from_store is_empty
      delete_leaf insert_leaf
  insert store key new_leaf = do
    current_root ← from_store (root_node store)
    check_sum_overflow_u64 (node_sum current_root) new_leaf.sum
    updated ← insert_inner store key new_leaf
    ok (
        if is_empty new_leaf
        then delete_leaf (rooted updated) key
        else insert_leaf (rooted updated) new_leaf)

  -- `FullTree::delete`
  unfoldable pub delete : DefaultStore → Key → Result DefaultStore TreeError
  unfolding insert_inner rooted delete_leaf
  delete store key = do
    updated ← insert_inner store key empty_leaf
    ok (delete_leaf (rooted updated) key)

  -- `FullTree::get`
  unfoldable pub get : DefaultStore → Key → Result LeafNode TreeError
  unfolding walk_down
  get store key = do walked ← walk_down store key; ok walked.0

  unfoldable pub siblings : List Turn → List Node
  siblings [] = []
  siblings ((s, h) ∷ turns) = s ∷ siblings turns

  -- `FullTree::merkle_proof`
  unfoldable pub merkle_proof : DefaultStore → Key → Result Proof TreeError
  unfolding walk_down siblings
  merkle_proof store key = do
    walked ← walk_down store key
    ok (record { nodes = siblings walked.1 })
