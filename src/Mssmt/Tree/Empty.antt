-- ===== src/Mssmt/Tree/Empty.antt =====
-- The tree on a new store: every walk in it succeeds.
use rust_tap.Common.{ℕ, zero, suc, ◌+◌, ◌<◌, ◌^◌, ◌≡◌, refl, arith, List, [], ◌∷◌}
use rust_tap.Common.{
  Result, ok, ◌>>=◌, ◌>>◌, Bool-cases, inl, inr, bytes_eq_refl, ◌==◌, if◌then◌else◌, bind_ok, ap,
  ◌∙◌, Option,
}
use rust_tap.Mssmt.Hashing.{Sha256}
use rust_tap.Mssmt.Node.{
  Key, Node, LeafNode, BranchNode, empty_tree, empty_leaf, max_tree_levels, leaf,
}
unfoldable use rust_tap.Mssmt.Node.{
  node_hash, node_sum, bit_index, empty_subtree, is_empty, as_branch,
}
use rust_tap.Mssmt.Store.{DefaultStore, StoreError, new_store}
unfoldable use rust_tap.Mssmt.Store.{get_children, root_node, delete_leaf, insert_leaf}
use rust_tap.Mssmt.Tree.{TreeError, Turn, leaf_or_empty}
unfoldable use rust_tap.Mssmt.Tree.{
  down_loop, walk_store, walk_down, from_store, insert_inner, up_loop, rooted,
}
unfoldable use rust_tap.Mssmt.Tree.{
  insert, check_sum_overflow_u64, get, delete, merkle_proof, siblings,
}
use rust_tap.Mssmt.Proof.{Proof}
use rust_tap.Mssmt.Node.Compaction.{node_sum-empty_subtree}

module _ ⦃sha256 : Sha256⦄ where
  empty_children :
      (s : DefaultStore) (i : ℕ)
      → get_children s i (node_hash (empty_tree i)) ≡ ok (empty_tree (i + 1), empty_tree (i + 1))
  unfolding get_children
  empty_children s i = rw (bytes_eq_refl (node_hash (empty_tree i))) refl

  down_loop-empty :
      (n i : ℕ) (s : DefaultStore) (key : Key) (turns : List Turn)
      → (later : List Turn) × (down_loop n i s key (empty_tree i) turns
          ≡ ok (empty_tree (i + n), later))
  unfolding down_loop
  down_loop-empty zero i s key turns = (turns, ap (λ m. ok (empty_tree m, turns)) (omega arith))
  down_loop-empty (suc n) i s key turns =
      let (later, e) =
        down_loop-empty n (i + 1) s key ((empty_tree (i + 1), node_hash (empty_tree i)) ∷ turns) in
      let next : empty_tree (i + 1 + n) ≡ empty_tree (i + suc n) =
        ap (λ m. empty_tree m) (omega arith) in
      (
        later,
        elim (Bool-cases (bit_index i key == 0)) [
          | inl b ↦ rw (empty_children s i, b, ← next) e
          | inr b ↦ rw (empty_children s i, b, ← next) e
        ],
      )

  bottom : leaf_or_empty (empty_tree max_tree_levels) ≡ empty_leaf
  unfolding leaf_or_empty empty_subtree
  bottom = refl

  walk_store-new_store :
      (n : ℕ) (key : Key)
      → (turns : List Turn) × (walk_store n new_store key
          ≡ ok (leaf_or_empty (empty_tree n), turns))
  unfolding walk_store root_node
  walk_store-new_store n key =
      let (later, e) = down_loop-empty n 0 new_store key [] in
      let last : empty_tree (0 + n) ≡ empty_tree n = ap (λ m. empty_tree m) (omega arith) in
      let finish : Node × List Turn → Result (LeafNode × List Turn) StoreError =
        λ found. ok (leaf_or_empty found.0, found.1) in
      (later, ap (λ r. r >>= finish) e ∙ ap (λ m. ok (leaf_or_empty m, later)) last)

  walked :
      (r : Result (LeafNode × List Turn) StoreError) (l : LeafNode) (turns : List Turn)
      → r ≡ ok (l, turns)
      → l ≡ empty_leaf
      → from_store r ≡ ok (empty_leaf, turns)
  unfolding from_store
  walked r l turns e f = rw (e, f) refl

  walk_down-new_store :
      (key : Key) → (turns : List Turn) × (walk_down new_store key ≡ ok (empty_leaf, turns))
  unfolding walk_down
  walk_down-new_store key =
      let (turns, e) = walk_store-new_store max_tree_levels key in
      (turns, walked (walk_store max_tree_levels new_store key) _ turns e bottom)

  -- On a new store every key has the empty leaf.
  pub get-new_store : (key : Key) → get new_store key ≡ ok empty_leaf
  unfolding get
  get-new_store key =
      let (turns, e) = walk_down-new_store key in
      bind_ok (walk_down new_store key) (λ w. ok w.0) (empty_leaf, turns) e

  walked_proof :
      (key : Key) (turns : List Turn)
      → walk_down new_store key ≡ ok (empty_leaf, turns)
      → merkle_proof new_store key ≡ ok (record { nodes = siblings turns })
  unfolding merkle_proof
  walked_proof key turns e =
      let finish : LeafNode × List Turn → Result Proof TreeError =
        λ w. ok (record { nodes = siblings w.1 }) in
      bind_ok (walk_down new_store key) finish (empty_leaf, turns) e

  -- On a new store every key has a Merkle proof.
  pub merkle_proof-new_store : (key : Key) → (p : Proof) × (merkle_proof new_store key ≡ ok p)
  merkle_proof-new_store key =
      let (turns, e) = walk_down-new_store key in
      (record { nodes = siblings turns }, walked_proof key turns e)

  fits :
      (n : LeafNode)
      → n.sum < 2 ^ 64
      → check_sum_overflow_u64 (node_sum (empty_tree 0)) n.sum ≡ ok tt
  unfolding check_sum_overflow_u64
  fits n h = ground (arith, h, node_sum-empty_subtree 256)

  inner_new :
      (key : Key) (n : LeafNode)
      → (u : Option BranchNode × DefaultStore) × (insert_inner new_store key n ≡ ok u)
  unfolding insert_inner
  inner_new key n =
      let (turns, e) = walk_down-new_store key in
      let finish : LeafNode × List Turn → Result (Option BranchNode × DefaultStore) TreeError = λ w.
        ok (
          let (top, store') = up_loop max_tree_levels key (leaf n) w.1 new_store in
          (as_branch top, store')) in
      (_, ap (λ r. r >>= finish) e)

  -- Inserting a leaf with a u64 sum into a new store succeeds.
  pub insert-new_store :
      (key : Key) (n : LeafNode)
      → n.sum < 2 ^ 64
      → (s : DefaultStore) × (insert new_store key n ≡ ok s)
  unfolding insert from_store root_node
  insert-new_store key n h =
      let (u, e) = inner_new key n in
      let finish : Option BranchNode × DefaultStore → Result DefaultStore TreeError =
        λ u. ok (if is_empty n then delete_leaf (rooted u) key else insert_leaf (rooted u) n) in
      (
        _,
        ap (λ r. r >> (insert_inner new_store key n >>= finish)) (fits n h)
            ∙ ap (λ r. r >>= finish) e,
      )

  -- Deleting a key from a new store succeeds.
  pub delete-new_store : (key : Key) → (s : DefaultStore) × (delete new_store key ≡ ok s)
  unfolding delete
  delete-new_store key =
      let (u, e) = inner_new key empty_leaf in
      (_, ap (λ r. r >>= λ u. ok (delete_leaf (rooted u) key)) e)
