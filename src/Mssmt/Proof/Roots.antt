-- ===== src/Mssmt/Proof/Roots.antt =====
-- The root that a proof of 256 nodes leads to: it is a branch, and its sum is the total.
use rust_tap.Common.{ℕ, zero, suc, ◌+◌, ◌%◌, ◌^◌, ◌≡◌, ◌∙◌, refl, sym, ap, arith, true, false}
use rust_tap.Common.{
  bytes_eq_refl, none, some, List, [], ◌∷◌, length, inl, inr, Bool-cases, ◌==◌, ok,
}
use rust_tap.Mssmt.Hashing.{Sha256}
use rust_tap.Mssmt.Node.{Key, LeafNode, Node, leaf, branch, computed, compacted}
use rust_tap.Mssmt.Node.{
  branch_node, node_hash, node_sum, bit_index, join, is_equal_node, as_branch,
}
use rust_tap.Mssmt.Node.{max_tree_levels}
use rust_tap.Mssmt.Proof.{Proof, root_loop, verify_merkle_proof, compress, decompress}
use rust_tap.Mssmt.Proof.Compression.{
  SameNode, SameNodes, is_equal_node→SameNode, root_loop-SameNode, decompress-compress,
}

abbrev pub IsBranch : Node → Type 0
IsBranch (branch l r) = Unit {0}
IsBranch _ = ⊥

-- The sums of the siblings, added as plain numbers.
abbrev pub total : List Node → ℕ
total [] = 0
total (n ∷ ns) = node_sum n + total ns

module _ ⦃sha256 : Sha256⦄ where
  join-IsBranch : (key : Key) (i : ℕ) (m s : Node) → IsBranch (join key i m s)
  unfolding join
  join-IsBranch key i m s = elim (Bool-cases (bit_index i key == 0)) [
    | inl b ↦ rw b tt
    | inr b ↦ rw b tt
  ]

  root_loop-IsBranch :
      (i : ℕ) (key : Key) (m : Node) (ss : List Node) → IsBranch m → IsBranch (root_loop i key m ss)
  unfolding root_loop
  root_loop-IsBranch zero key m ss h = h
  root_loop-IsBranch (suc i) key m [] h = h
  root_loop-IsBranch (suc i) key m (s ∷ ss) h =
      root_loop-IsBranch i key (join key i m s) ss (join-IsBranch key i m s)

  pub proof_root-IsBranch :
      (key : Key) (n : Node) (ss : List Node)
      → length ss ≡ max_tree_levels
      → IsBranch (root_loop max_tree_levels key n ss)
  unfolding root_loop
  proof_root-IsBranch key n [] h = absurd (omega arith)
  proof_root-IsBranch key n (s ∷ ss) h =
      root_loop-IsBranch 255 key (join key 255 n s) ss (join-IsBranch key 255 n s)

  compare_root :
      (n root_node : Node)
      → IsBranch n
      → (elim (as_branch n) [ none ↦ false | some b ↦ is_equal_node (branch_node b) root_node ])
        ≡ is_equal_node n root_node
  unfolding as_branch
  compare_root (branch l r) root_node h = refl
  compare_root (leaf m) root_node h = absurd h
  compare_root (compacted m) root_node h = absurd h
  compare_root (computed m) root_node h = absurd h

  pub verify_merkle_proof_lem :
      (key : Key) (n : LeafNode) (p : Proof) (root_node : Node)
      → length p.nodes ≡ max_tree_levels
      → verify_merkle_proof key n p root_node
        ≡ is_equal_node (root_loop max_tree_levels key (leaf n) p.nodes) root_node
  unfolding verify_merkle_proof
  verify_merkle_proof_lem key n p root_node h =
      compare_root (root_loop max_tree_levels key (leaf n) p.nodes) root_node
        (proof_root-IsBranch key (leaf n) p.nodes h)

  is_equal_node-SameNode :
      (m n root_node : Node) → SameNode m n → is_equal_node m root_node ≡ is_equal_node n root_node
  unfolding is_equal_node
  is_equal_node-SameNode m n root_node h = rw (h.hash, h.sum)

  SameNodes-length : (ms ns : List Node) → SameNodes ms ns → length ms ≡ length ns
  SameNodes-length [] [] h = refl
  SameNodes-length [] (n ∷ ns) h = absurd h
  SameNodes-length (m ∷ ms) [] h = absurd h
  SameNodes-length (m ∷ ms) (n ∷ ns) h = ap suc (SameNodes-length ms ns h.1)

  -- A proof of 256 nodes can be compressed and decompressed, the result has 256 nodes, and the
  -- verifier answers the same on it as on the proof, at every key, leaf and root.
  pub verify_merkle_proof-decompress :
      (p : Proof) (key : Key) (n : LeafNode) (root_node : Node)
      → length p.nodes ≡ max_tree_levels
      → (q : Proof) × (decompress (compress p) ≡ ok q)
        × (length q.nodes ≡ max_tree_levels)
        × (verify_merkle_proof key n q root_node ≡ verify_merkle_proof key n p root_node)
  verify_merkle_proof-decompress p key n root_node h =
      let d = decompress-compress p in
      let size : length d.proof.nodes ≡ max_tree_levels =
        SameNodes-length d.proof.nodes p.nodes d.same ∙ h in
      (
        d.proof,
        d.result,
        size,
        verify_merkle_proof_lem key n d.proof root_node size
            ∙ is_equal_node-SameNode _ _ root_node (
                root_loop-SameNode max_tree_levels key (leaf n) (leaf n) d.proof.nodes p.nodes
                  (record { hash = refl; sum = refl }) d.same)
            ∙ sym (verify_merkle_proof_lem key n p root_node h),
      )

  root_loop-sum :
      (i : ℕ) (key : Key) (m : Node) (ss : List Node)
      → length ss ≡ i
      → node_sum (root_loop i key m ss) % 2 ^ 64 ≡ (node_sum m + total ss) % 2 ^ 64
  unfolding root_loop join
  root_loop-sum zero key m [] h = omega arith
  root_loop-sum zero key m (s ∷ ss) h = absurd (omega arith)
  root_loop-sum (suc i) key m [] h = absurd (omega arith)
  root_loop-sum (suc i) key m (s ∷ ss) h =
      root_loop-sum i key (join key i m s) ss (omega arith)
      ∙ elim (Bool-cases (bit_index i key == 0)) [
        | inl b ↦ rw (b, join) (unfold node_sum in omega arith)
        | inr b ↦ rw (b, join) (unfold node_sum in omega arith)
      ]

  branch_sum : (n : Node) → IsBranch n → node_sum n % 2 ^ 64 ≡ node_sum n
  unfolding node_sum
  branch_sum (branch l r) h = omega arith
  branch_sum (leaf m) h = absurd h
  branch_sum (compacted m) h = absurd h
  branch_sum (computed m) h = absurd h

  -- The sum of a root that the verifier accepts for a proof of 256 nodes is the leaf's sum and
  -- all the siblings' sums, added modulo 2 ^ 64.
  pub verify_merkle_proof-sum :
      (key : Key) (n : LeafNode) (p : Proof) (root_node : Node)
      → length p.nodes ≡ max_tree_levels
      → verify_merkle_proof key n p root_node ≡ true
      → node_sum root_node ≡ (n.sum + total p.nodes) % 2 ^ 64
  verify_merkle_proof-sum key n p root_node h e =
      let top = root_loop max_tree_levels key (leaf n) p.nodes in
      let same =
        is_equal_node→SameNode top root_node
          (sym (verify_merkle_proof_lem key n p root_node h) ∙ e) in
      sym same.sum
      ∙ sym (branch_sum top (proof_root-IsBranch key (leaf n) p.nodes h))
      ∙ root_loop-sum max_tree_levels key (leaf n) p.nodes h
      ∙ unfold node_sum in refl

  -- The root that a proof computes, kept as hash and sum.
  abbrev pub own_root : Key → LeafNode → Proof → Node
  own_root key n p =
      let top = root_loop max_tree_levels key (leaf n) p.nodes in
      computed (record { hash = node_hash top; sum = node_sum top })

  pub verify_merkle_proof-own_root :
      (key : Key) (n : LeafNode) (p : Proof)
      → length p.nodes ≡ max_tree_levels
      → verify_merkle_proof key n p (own_root key n p) ≡ true
  unfolding is_equal_node node_hash node_sum
  verify_merkle_proof-own_root key n p h =
      verify_merkle_proof_lem key n p (own_root key n p) h
      ∙ ground (arith, bytes_eq_refl (node_hash (root_loop max_tree_levels key (leaf n) p.nodes)))
