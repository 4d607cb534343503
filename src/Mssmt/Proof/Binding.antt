-- ===== src/Mssmt/Proof/Binding.antt =====
-- A root admits one leaf at each key, up to collisions of the hash function.
use rust_tap.Common.{ℕ, zero, suc, ◌^◌, ◌<◌, ◌≡◌, ◌∙◌, sym, ap, arith}
use rust_tap.Common.{true, false, none, some, List, [], ◌∷◌, ◌++◌, length, length-append, All}
use rust_tap.Common.{◌⊎◌, inl, inr, Bool-cases, ◌==◌, bytes_eq→eq}
use rust_tap.Common.{append_cancel}
use rust_tap.Common.Bytes.{
  to_be_bytes, from_be_bytes, length-to_be_bytes, from_be_bytes-to_be_bytes,
}
use rust_tap.Mssmt.Hashing.{Sha256, Collision, eq_or_Collision}
use rust_tap.Mssmt.Node.{Key, LeafNode, Node, leaf, branch, computed, compacted}
use rust_tap.Mssmt.Node.{NodeHash, node_hash, node_sum, leaf_hash, branch_hash, bit_index, join}
use rust_tap.Mssmt.Node.{is_equal_node, as_branch, branch_node, max_tree_levels}
use rust_tap.Mssmt.Proof.{Proof, root_loop, verify_merkle_proof}

-- The stored hashes of a node that is no leaf have 32 bytes, as their Rust type says.
abbrev pub HasHash : Node → Type 0
HasHash (leaf n) = Unit {0}
HasHash (branch l r) = Unit {0}
HasHash (compacted n) = length n.compacted_hash ≡ 32
HasHash (computed n) = length n.hash ≡ 32

append_cancel_right :
    (xs xs' ys ys' : List ℕ)
    → length ys ≡ length ys'
    → xs ++ ys ≡ xs' ++ ys'
    → (xs ≡ xs') × (ys ≡ ys')
append_cancel_right xs xs' ys ys' h e =
    append_cancel xs xs' ys ys'
      (omega (arith, ap (λ (t : List ℕ). length t) e, length-append xs ys, length-append xs' ys')) e

be_bytes_injective : (a b : ℕ) → a < 2 ^ 64 → b < 2 ^ 64 → to_be_bytes 8 a ≡ to_be_bytes 8 b → a ≡ b
be_bytes_injective a b ha hb e =
    sym (from_be_bytes-to_be_bytes 8 a ha) ∙ ap from_be_bytes e ∙ from_be_bytes-to_be_bytes 8 b hb

module _ ⦃sha256 : Sha256⦄ where
  pub length-node_hash : (n : Node) → HasHash n → length (node_hash n) ≡ 32
  unfolding node_hash leaf_hash branch_hash
  length-node_hash (leaf n) h = sha256.length-digest _
  length-node_hash (branch l r) h = sha256.length-digest _
  length-node_hash (compacted n) h = h
  length-node_hash (computed n) h = h

  -- Equal hashes of two branches: equal hashes of the children, on each side.
  branch_hash_injective :
      (a b a' b' : NodeHash) (s s' : ℕ)
      → length a ≡ length a'
      → length b ≡ length b'
      → branch_hash a b s ≡ branch_hash a' b' s'
      → ((a ≡ a') × (b ≡ b')) ⊎ Collision sha256
  unfolding branch_hash
  branch_hash_injective a b a' b' s s' ha hb e = elim (eq_or_Collision sha256 _ _ e) [
    | inr c ↦ inr c
    | inl same ↦
        let (left, rest) =
          append_cancel a a' (b ++ to_be_bytes 8 s) (b' ++ to_be_bytes 8 s') ha same in
        inl (left, (append_cancel b b' (to_be_bytes 8 s) (to_be_bytes 8 s') hb rest).0)
  ]

  leaf_hash_injective :
      (m n : LeafNode)
      → m.sum < 2 ^ 64
      → n.sum < 2 ^ 64
      → leaf_hash m ≡ leaf_hash n
      → (m ≡ n) ⊎ Collision sha256
  unfolding leaf_hash
  leaf_hash_injective m n hm hn e = elim (eq_or_Collision sha256 _ _ e) [
    | inr c ↦ inr c
    | inl same ↦
        let (values, sums) =
          append_cancel_right m.value n.value (to_be_bytes 8 m.sum) (to_be_bytes 8 n.sum)
            (length-to_be_bytes 8 m.sum ∙ sym (length-to_be_bytes 8 n.sum)) same in
        inl (cc (values, be_bytes_injective m.sum n.sum hm hn sums))
  ]

  join_injective :
      (key : Key) (i : ℕ) (m n s t : Node)
      → HasHash m
      → HasHash n
      → HasHash s
      → HasHash t
      → node_hash (join key i m s) ≡ node_hash (join key i n t)
      → (node_hash m ≡ node_hash n) ⊎ Collision sha256
  unfolding join node_hash
  join_injective key i m n s t hm hn hs ht e =
      let em : length (node_hash m) ≡ length (node_hash n) =
        length-node_hash m hm ∙ sym (length-node_hash n hn) in
      let es : length (node_hash s) ≡ length (node_hash t) =
        length-node_hash s hs ∙ sym (length-node_hash t ht) in
      elim (Bool-cases (bit_index i key == 0)) [
        | inl b ↦ elim (branch_hash_injective _ _ _ _ _ _ em es (rw b at e)) [
          | inr c ↦ inr c
          | inl same ↦ inl same.0
        ]
        | inr b ↦ elim (branch_hash_injective _ _ _ _ _ _ es em (rw b at e)) [
          | inr c ↦ inr c
          | inl same ↦ inl same.1
        ]
      ]

  join-HasHash : (key : Key) (i : ℕ) (m s : Node) → HasHash (join key i m s)
  unfolding join
  join-HasHash key i m s = elim (Bool-cases (bit_index i key == 0)) [
    | inl b ↦ rw b tt
    | inr b ↦ rw b tt
  ]

  root_loop_injective :
      (i : ℕ) (key : Key) (m n : Node) (ss ts : List Node)
      → HasHash m
      → HasHash n
      → All HasHash ss
      → All HasHash ts
      → length ss ≡ i
      → length ts ≡ i
      → node_hash (root_loop i key m ss) ≡ node_hash (root_loop i key n ts)
      → (node_hash m ≡ node_hash n) ⊎ Collision sha256
  unfolding root_loop
  root_loop_injective zero key m n [] [] hm hn hs ht es et e = inl e
  root_loop_injective zero key m n [] (t ∷ ts) hm hn hs ht es et e = absurd (omega arith)
  root_loop_injective zero key m n (s ∷ ss) ts hm hn hs ht es et e = absurd (omega arith)
  root_loop_injective (suc i) key m n [] ts hm hn hs ht es et e = absurd (omega arith)
  root_loop_injective (suc i) key m n (s ∷ ss) [] hm hn hs ht es et e = absurd (omega arith)
  root_loop_injective (suc i) key m n (s ∷ ss) (t ∷ ts) hm hn hs ht es et e =
      elim (root_loop_injective i key (join key i m s) (join key i n t) ss ts
        (join-HasHash key i m s) (join-HasHash key i n t) hs.1 ht.1 (omega arith) (omega arith) e) [
          | inr c ↦ inr c
          | inl same ↦ join_injective key i m n s t hm hn hs.0 ht.0 same
        ]

  -- A proof of 256 nodes whose stored hashes have 32 bytes.
  pub record IsValidProof (p : Proof) : Type 0 where
    pub count : length p.nodes ≡ max_tree_levels
    pub hashes : All HasHash p.nodes

  equal_nodes :
      (n root_node : Node)
      → (elim (as_branch n) [ none ↦ false | some b ↦ is_equal_node (branch_node b) root_node ])
        ≡ true
      → (node_hash n ≡ node_hash root_node) × (node_sum n ≡ node_sum root_node)
  unfolding as_branch is_equal_node
  equal_nodes (branch l r) root_node e =
      ground (arith, bytes_eq→eq (node_hash (branch l r)) (node_hash root_node))
  equal_nodes (leaf m) root_node e = cc
  equal_nodes (compacted m) root_node e = cc
  equal_nodes (computed m) root_node e = cc

  verify_root :
      (key : Key) (n : LeafNode) (p : Proof) (root_node : Node)
      → verify_merkle_proof key n p root_node ≡ true
      → (node_hash (root_loop max_tree_levels key (leaf n) p.nodes) ≡ node_hash root_node)
        × (node_sum (root_loop max_tree_levels key (leaf n) p.nodes) ≡ node_sum root_node)
  unfolding verify_merkle_proof
  verify_root key n p root_node e =
      equal_nodes (root_loop max_tree_levels key (leaf n) p.nodes) root_node e

  -- Two leaves that the verifier accepts at one key against one root are the same leaf, or the
  -- two proofs show a collision of the hash function. In particular no key has both an inclusion
  -- proof of a leaf and a proof of absence, that is of the empty leaf.
  pub verify_merkle_proof-binding :
      (key : Key) (m n : LeafNode) (p q : Proof) (root_node : Node)
      → IsValidProof p
      → IsValidProof q
      → m.sum < 2 ^ 64
      → n.sum < 2 ^ 64
      → verify_merkle_proof key m p root_node ≡ true
      → verify_merkle_proof key n q root_node ≡ true
      → (m ≡ n) ⊎ Collision sha256
  verify_merkle_proof-binding key m n p q root_node vp vq hm hn e f =
      let same = (verify_root key m p root_node e).0 ∙ sym (verify_root key n q root_node f).0 in
      elim (root_loop_injective max_tree_levels key (leaf m) (leaf n) p.nodes q.nodes tt tt
        vp.hashes vq.hashes vp.count vq.count same) [
          | inr c ↦ inr c
          | inl leaves ↦ leaf_hash_injective m n hm hn (unfold node_hash in leaves)
        ]
