-- ===== src/Mssmt/Tree/Insertion.antt =====
-- An insertion and the Merkle proof of its key.
use rust_tap.Common.{ℕ, zero, suc, ◌+◌, ◌≡◌, refl, sym, ap, ◌∙◌, arith, subst, Bool, true, false}
use rust_tap.Common.{
  Option, List, [], ◌∷◌, Result, ok, err, ◌>>=◌, ◌>>◌, length, ◌==◌, if◌then◌else◌,
}
use rust_tap.Common.{bind_parts, ok_injective, Bool-cases, inl, inr, bytes_eq_refl}
use rust_tap.Mssmt.Hashing.{Sha256}
use rust_tap.Mssmt.Node.{
  Key, Node, LeafNode, BranchNode, leaf, branch, compacted, computed, max_tree_levels, empty_leaf,
}
unfoldable use rust_tap.Mssmt.Node.{
  as_branch, node_hash, node_sum, join, is_equal_node, bit_index, is_empty,
}
use rust_tap.Mssmt.Proof.{Proof}
unfoldable use rust_tap.Mssmt.Proof.{root_loop, verify_merkle_proof}
use rust_tap.Mssmt.Proof.Roots.{IsBranch, proof_root-IsBranch, verify_merkle_proof_lem}
use rust_tap.Mssmt.Store.{DefaultStore, StoreError}
unfoldable use rust_tap.Mssmt.Store.{
  get_children, root_node, update_root, shallow_branch, insert_leaf, delete_leaf,
}
use rust_tap.Mssmt.Tree.{TreeError, Turn, leaf_or_empty, replace_branch}
unfoldable use rust_tap.Mssmt.Tree.{
  down_loop, walk_store, walk_down, from_store, up_loop, siblings, insert_inner, rooted,
}
unfoldable use rust_tap.Mssmt.Tree.{insert, merkle_proof, check_sum_overflow_u64, delete}

module _ ⦃sha256 : Sha256⦄ where
  -- The walk back up, whatever it does with the store, joins the same nodes as the proof's root.
  up_loop-root_loop :
      (n : ℕ) (key : Key) (current : Node) (turns : List Turn) (s : DefaultStore)
      → (up_loop n key current turns s).0 ≡ root_loop n key current (siblings turns)
  unfolding up_loop root_loop siblings
  up_loop-root_loop zero key current turns s = refl
  up_loop-root_loop (suc i) key current [] s = refl
  up_loop-root_loop (suc i) key current ((m, h) ∷ turns) s =
      up_loop-root_loop i key (join key i current m) turns
        (replace_branch i h (join key i current m) s)

  length-siblings : (turns : List Turn) → length (siblings turns) ≡ length turns
  unfolding siblings
  length-siblings [] = refl
  length-siblings ((m, h) ∷ turns) = ap suc (length-siblings turns)

  length-down_loop :
      (n i : ℕ) (s : DefaultStore) (key : Key) (current : Node) (turns : List Turn)
      (r : Node × List Turn)
      → down_loop n i s key current turns ≡ ok r
      → length r.1 ≡ n + length turns
  unfolding down_loop
  length-down_loop zero i s key current turns r e = rw (← ok_injective e) (omega arith)
  length-down_loop (suc n) i s key current turns r e =
      let (children, e₁, e₂) = bind_parts (get_children s i (node_hash current)) _ r e in
      elim (Bool-cases (bit_index i key == 0)) [
        | inl b ↦ omega (arith, length-down_loop n (i + 1) s key children.0 _ r (rw b at e₂))
        | inr b ↦ omega (arith, length-down_loop n (i + 1) s key children.1 _ r (rw b at e₂))
      ]

  is_equal_node_refl : (n : Node) → is_equal_node n n ≡ true
  unfolding is_equal_node
  is_equal_node_refl n = ground (arith, bytes_eq_refl (node_hash n))

  -- The root that is stored for a branch is equal to it.
  stored_root :
      (n : Node) (s : DefaultStore) (top : Node)
      → IsBranch n
      → root_node (rooted (as_branch n, s)) ≡ ok top
      → is_equal_node n top ≡ true
  unfolding as_branch rooted root_node update_root shallow_branch is_equal_node node_hash node_sum
  stored_root (branch l r) s top h e =
      subst (λ t. is_equal_node (branch l r) t ≡ true) (ok_injective e)
        (ground (arith, bytes_eq_refl (node_hash (branch l r))))
  stored_root (leaf m) s top h e = absurd h
  stored_root (compacted m) s top h e = absurd h
  stored_root (computed m) s top h e = absurd h

  leaves_apart :
      (c : Bool) (s : DefaultStore) (key : Key) (n : LeafNode)
      → root_node (if c then delete_leaf s key else insert_leaf s n) ≡ root_node s
  unfolding root_node delete_leaf insert_leaf
  leaves_apart true s key n = refl
  leaves_apart false s key n = refl

  from_store_parts :
      (r : Result (LeafNode × List Turn) StoreError) (a : LeafNode × List Turn)
      → from_store r ≡ ok a
      → r ≡ ok a
  unfolding from_store
  from_store_parts (ok x) a e = ap ok (ok_injective e)
  from_store_parts (err x) a e = cc e

  length-walk_down :
      (s : DefaultStore) (key : Key) (w : LeafNode × List Turn)
      → walk_down s key ≡ ok w
      → length (siblings w.1) ≡ max_tree_levels
  unfolding walk_down walk_store
  length-walk_down s key w e =
      let e₀ : walk_store max_tree_levels s key ≡ ok w =
        from_store_parts (walk_store max_tree_levels s key) w e in
      let finish : Node × List Turn → Result (LeafNode × List Turn) StoreError =
        λ found. ok (leaf_or_empty found.0, found.1) in
      let (top, _, e₁) =
        bind_parts (root_node s) (λ top. down_loop max_tree_levels 0 s key top [] >>= finish) w
          e₀ in
      let (r, e₂, e₃) = bind_parts (down_loop max_tree_levels 0 s key top []) finish w e₁ in
      let same : r.1 ≡ w.1 = ap (λ (t : LeafNode × List Turn). t.1) (ok_injective e₃) in
      omega (
        arith,
        length-siblings w.1,
        ap (λ (t : List Turn). length t) same,
        length-down_loop max_tree_levels 0 s key top [] r e₂,
      )

  -- The root after `insert_inner` is the one that the siblings of the walk give with the new leaf.
  inserted_root :
      (s : DefaultStore) (key : Key) (n : LeafNode) (w : LeafNode × List Turn)
      (updated : Option BranchNode × DefaultStore) (top : Node)
      → walk_down s key ≡ ok w
      → insert_inner s key n ≡ ok updated
      → root_node (rooted updated) ≡ ok top
      → verify_merkle_proof key n (record { nodes = siblings w.1 }) top ≡ true
  unfolding insert_inner
  inserted_root s key n w updated top e f g =
      let walk = up_loop max_tree_levels key (leaf n) w.1 s in
      let size = length-walk_down s key w e in
      let same : walk.0 ≡ root_loop max_tree_levels key (leaf n) (siblings w.1) =
        up_loop-root_loop max_tree_levels key (leaf n) w.1 s in
      let made : (as_branch walk.0, walk.1) ≡ updated = ok_injective (rw e at f) in
      let is_branch : IsBranch walk.0 =
        rw same (proof_root-IsBranch key (leaf n) (siblings w.1) size) in
      verify_merkle_proof_lem key n (record { nodes = siblings w.1 }) top size
      ∙ rw same at (stored_root walk.0 walk.1 top is_branch (rw (← made) at g))

  -- After an insertion that succeeds, the proof that the tree gave for the key before proves the new
  -- leaf at the key against the new root.
  pub verify_merkle_proof-insert :
      (s s' : DefaultStore) (key : Key) (n : LeafNode) (p : Proof) (top : Node)
      → merkle_proof s key ≡ ok p
      → insert s key n ≡ ok s'
      → root_node s' ≡ ok top
      → verify_merkle_proof key n p top ≡ true
  unfolding merkle_proof insert
  verify_merkle_proof-insert s s' key n p top e f g =
      let (w, e₁, e₂) =
        bind_parts (walk_down s key) (λ w. ok (record { nodes = siblings w.1 })) p e in
      let finish : Option BranchNode × DefaultStore → Result DefaultStore TreeError =
        λ u. ok (if is_empty n then delete_leaf (rooted u) key else insert_leaf (rooted u) n) in
      let go_on : Result DefaultStore TreeError = insert_inner s key n >>= finish in
      let (before, _, f₁) =
        bind_parts (from_store (root_node s))
          (λ top. check_sum_overflow_u64 (node_sum top) n.sum >> go_on) s' f in
      let (_, _, f₂) =
        bind_parts (check_sum_overflow_u64 (node_sum before) n.sum) (λ _. go_on) s' f₁ in
      let (updated, f₃, f₄) = bind_parts (insert_inner s key n) finish s' f₂ in
      let after : root_node (rooted updated) ≡ ok top =
        sym (leaves_apart (is_empty n) (rooted updated) key n)
        ∙ ap root_node (ok_injective f₄)
        ∙ g in
      subst (λ q. verify_merkle_proof key n q top ≡ true) (ok_injective e₂)
        (inserted_root s key n w updated top e₁ f₃ after)

  -- After a deletion that succeeds, the proof that the tree gave for the key before proves the empty
  -- leaf at the key against the new root.
  pub verify_merkle_proof-delete :
      (s s' : DefaultStore) (key : Key) (p : Proof) (top : Node)
      → merkle_proof s key ≡ ok p
      → delete s key ≡ ok s'
      → root_node s' ≡ ok top
      → verify_merkle_proof key empty_leaf p top ≡ true
  unfolding merkle_proof delete
  verify_merkle_proof-delete s s' key p top e f g =
      let (w, e₁, e₂) =
        bind_parts (walk_down s key) (λ w. ok (record { nodes = siblings w.1 })) p e in
      let (updated, f₃, f₄) =
        bind_parts (insert_inner s key empty_leaf) (λ u. ok (delete_leaf (rooted u) key)) s' f in
      let after : root_node (rooted updated) ≡ ok top =
        sym (leaves_apart true (rooted updated) key empty_leaf)
        ∙ ap root_node (ok_injective f₄)
        ∙ g in
      subst (λ q. verify_merkle_proof key empty_leaf q top ≡ true) (ok_injective e₂)
        (inserted_root s key empty_leaf w updated top e₁ f₃ after)
