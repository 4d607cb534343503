-- ===== src/Mssmt/Store.antt =====
-- tap-primitives/src/mssmt/store.rs: `DefaultStore`, whose maps are lists of hashes and values, the
-- latest first.
use rust_tap.Common.{ℕ, zero, suc, ◌+◌, Option, none, some}
use rust_tap.Common.{List, [], ◌∷◌, Result, ok, err, ◌>>=◌, if◌then◌else◌, bytes_eq}
use rust_tap.Mssmt.Hashing.{Sha256}
use rust_tap.Mssmt.Node.{NodeHash, Node, LeafNode, CompactedLeafNode, BranchNode}
use rust_tap.Mssmt.Node.{
  leaf, branch, compacted, computed, branch_node, empty_tree, max_tree_levels,
}
unfoldable use rust_tap.Mssmt.Node.{as_branch, node_hash, node_sum, leaf_hash, is_empty}

pub data StoreError : Type 0 where
  node_not_found : StoreError
  computed_node : StoreError

unfoldable pub lookup {ℓ} : {V : Type ℓ} → NodeHash → List (NodeHash × V) → Option V
lookup hash [] = none
lookup hash ((h, v) ∷ rest) =
    let later = lookup hash rest in if bytes_eq h hash then some v else later

unfoldable pub remove {ℓ} : {V : Type ℓ} → NodeHash → List (NodeHash × V) → List (NodeHash × V)
remove hash [] = []
remove hash ((h, v) ∷ rest) =
    let later = remove hash rest in if bytes_eq h hash then later else (h, v) ∷ later

unfoldable pub put {ℓ} : {V : Type ℓ} → NodeHash → V → List (NodeHash × V) → List (NodeHash × V)
unfolding remove
put hash v entries = (hash, v) ∷ remove hash entries

pub record DefaultStore : Type 0 where
  pub branches : List (NodeHash × BranchNode)
  pub leaves : List (NodeHash × LeafNode)
  pub compacted_leaves : List (NodeHash × CompactedLeafNode)
  pub root : Option BranchNode

abbrev pub new_store : DefaultStore
new_store = record { branches = []; leaves = []; compacted_leaves = []; root = none }

abbrev as_node {ℓ} : {A : Type ℓ} → (A → Node) → Option A → Node → Node
as_node f none d = d
as_node f (some a) d = f a

module _ ⦃sha256 : Sha256⦄ where
  unfoldable pub shallow_branch : BranchNode → BranchNode
  unfolding node_hash node_sum
  shallow_branch b = record {
    left = computed (record { hash = node_hash b.left; sum = node_sum b.left });
    right = computed (record { hash = node_hash b.right; sum = node_sum b.right });
  }

  unfoldable pub get_node : DefaultStore → ℕ → NodeHash → Node
  unfolding lookup node_hash
  get_node store height hash =
      let empty = empty_tree height in
      if bytes_eq hash (node_hash empty)
      then empty
      else as_node branch_node (lookup hash store.branches) (
          as_node compacted (lookup hash store.compacted_leaves)
            (as_node leaf (lookup hash store.leaves) empty))

  -- The children of a node that was looked up at `height`.
  unfoldable pub children_of : DefaultStore → ℕ → Node → Result (Node × Node) StoreError
  unfolding get_node
  children_of store height (branch l r) =
      ok (get_node store (height + 1) (node_hash l), get_node store (height + 1) (node_hash r))
  children_of store height _ = err node_not_found

  unfoldable pub get_children : DefaultStore → ℕ → NodeHash → Result (Node × Node) StoreError
  unfolding children_of
  get_children store height hash =
      let found = get_node store height hash in
      let empty_hash = node_hash (empty_tree height) in
      if bytes_eq hash empty_hash
      then ok (empty_tree (height + 1), empty_tree (height + 1))
      else if bytes_eq (node_hash found) empty_hash
      then err node_not_found
      else children_of store height found

  unfoldable pub root_node : DefaultStore → Result Node StoreError
  root_node store = ok (as_node branch_node store.root (empty_tree 0))

  unfoldable pub update_root : DefaultStore → BranchNode → DefaultStore
  unfolding shallow_branch
  update_root store b = record store { root = some (shallow_branch b) }

  unfoldable pub insert_branch : DefaultStore → BranchNode → DefaultStore
  unfolding shallow_branch put
  insert_branch store b = record store {
    branches = put (node_hash (branch_node b)) (shallow_branch b) store.branches;
  }

  unfoldable pub insert_leaf : DefaultStore → LeafNode → DefaultStore
  unfolding put
  insert_leaf store n = record store { leaves = put (leaf_hash n) n store.leaves }

  unfoldable pub insert_compacted_leaf : DefaultStore → CompactedLeafNode → DefaultStore
  unfolding put
  insert_compacted_leaf store n = record store {
    compacted_leaves = put n.compacted_hash n store.compacted_leaves;
  }

  -- `copy_node` at level `height`, with as many calls inside one another as `fuel`; a branch below the
  -- last level would be an index out of range.
  unfoldable pub copy_node :
      ℕ → DefaultStore → ℕ → Node → DefaultStore → Result DefaultStore StoreError
  copy_node zero source height n target = err node_not_found
  copy_node (suc fuel) source height n target =
      if bytes_eq (node_hash n) (node_hash (empty_tree height)) then ok target else elim n [
        | leaf l ↦ if is_empty l then ok target else ok (insert_leaf target l)
        | compacted c ↦ ok (insert_compacted_leaf target c)
        | computed c ↦ err computed_node
        | branch l r ↦ do
          children ← get_children source height (node_hash (branch l r))
          target' ←
              copy_node fuel source (height + 1) children.0
                (insert_branch target (record { left = l; right = r }))
          copy_node fuel source (height + 1) children.1 target'
      ]

  -- `if let Node::Branch(branch) = &root`
  unfoldable pub root_updated : DefaultStore → Option BranchNode → DefaultStore
  unfolding update_root
  root_updated target none = target
  root_updated target (some b) = update_root target b

  unfoldable pub copy_tree_store : DefaultStore → DefaultStore → Result DefaultStore StoreError
  unfolding copy_node root_updated root_node as_branch
  copy_tree_store source target = do
    top ← root_node source
    if bytes_eq (node_hash top) (node_hash (empty_tree 0)) then ok target else (do
      target' ← copy_node (max_tree_levels + 1) source 0 top target
      ok (root_updated target' (as_branch top)))

unfoldable pub delete_branch : DefaultStore → NodeHash → DefaultStore
unfolding remove
delete_branch store hash = record store { branches = remove hash store.branches }

unfoldable pub delete_leaf : DefaultStore → NodeHash → DefaultStore
unfolding remove
delete_leaf store hash = record store { leaves = remove hash store.leaves }

unfoldable pub delete_compacted_leaf : DefaultStore → NodeHash → DefaultStore
unfolding remove
delete_compacted_leaf store hash = record store {
  compacted_leaves = remove hash store.compacted_leaves;
}

unfoldable pub delete_root : DefaultStore → DefaultStore
delete_root store = record store { root = none }

unfoldable pub delete_all_nodes : DefaultStore → DefaultStore
delete_all_nodes store = new_store
