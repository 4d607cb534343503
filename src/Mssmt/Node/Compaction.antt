-- ===== src/Mssmt/Node/Compaction.antt =====
-- A compacted leaf stands for the subtree that it extracts to.
use rust_tap.Common.{ℕ, zero, suc, ◌+◌, ◌-◌, ◌^◌, ◌<◌, ◌≡◌, ◌∙◌, refl, sym, ap, arith}
use rust_tap.Common.{Bool-cases, inl, inr, ◌==◌}
use rust_tap.Mssmt.Hashing.{Sha256}
use rust_tap.Mssmt.Node.{max_tree_levels, NodeHash, Key, LeafNode, Node, node_hash, node_sum}
use rust_tap.Mssmt.Node.{bit_index, empty_tree, empty_subtree, compact_round, compact_loop}
use rust_tap.Mssmt.Node.{new_compacted, compute_compacted_hash, join, extract_loop, extract, leaf}
use rust_tap.Mssmt.Node.{compacted}

module _ ⦃sha256 : Sha256⦄ where
  compact_round-join :
      (key : Key) (i : ℕ) (n : Node)
      → compact_round key i (node_hash n, node_sum n) ≡ (
        node_hash (join key i n (empty_tree (i + 1))),
        node_sum (join key i n (empty_tree (i + 1))),
      )
  unfolding compact_round join node_hash node_sum
  compact_round-join key i n = elim (Bool-cases (bit_index i key == 0)) [
    | inl e ↦ rw e
    | inr e ↦ rw e
  ]

  compact_loop-extract_loop :
      (n height : ℕ) (key : Key) (current : Node)
      → compact_loop n height key (node_hash current, node_sum current) ≡ (
        node_hash (extract_loop n height key current),
        node_sum (extract_loop n height key current),
      )
  unfolding compact_loop extract_loop
  compact_loop-extract_loop zero height key current = refl
  compact_loop-extract_loop (suc n) height key current =
      ap (compact_loop n height key) (compact_round-join key (height + n) current)
      ∙ compact_loop-extract_loop n height key
          (join key (height + n) current (empty_tree (height + n + 1)))

  pub node_sum-empty_subtree : (k : ℕ) → node_sum (empty_subtree k) ≡ 0
  unfolding empty_subtree node_sum
  node_sum-empty_subtree zero = refl
  node_sum-empty_subtree (suc k) = rw (node_sum-empty_subtree k)

  node_sum-join :
      (key : Key) (i : ℕ) (current : Node)
      → node_sum current < 2 ^ 64
      → node_sum (join key i current (empty_tree (i + 1))) ≡ node_sum current
  unfolding join node_sum
  node_sum-join key i current h =
      let z = node_sum-empty_subtree (256 - (i + 1)) in
      elim (Bool-cases (bit_index i key == 0)) [
        | inl e ↦ rw (e, z) (omega arith)
        | inr e ↦ rw (e, z) (omega arith)
      ]

  node_sum-extract_loop :
      (n height : ℕ) (key : Key) (current : Node)
      → node_sum current < 2 ^ 64
      → node_sum (extract_loop n height key current) ≡ node_sum current
  unfolding extract_loop join node_sum
  node_sum-extract_loop zero height key current h = refl
  node_sum-extract_loop (suc n) height key current h =
      node_sum-extract_loop n height key
        (join key (height + n) current (empty_tree (height + n + 1)))
        (rw (node_sum-join key (height + n) current h) h)
      ∙ node_sum-join key (height + n) current h

  -- A compacted leaf, wherever it was made, has the hash and the sum of the subtree that `extract`
  -- rebuilds from it at the same height, for every leaf whose sum is a `u64`.
  pub node_hash-extract :
      (height : ℕ) (key : Key) (n : LeafNode)
      → n.sum < 2 ^ 64
      → (node_hash (compacted (new_compacted height key n))
          ≡ node_hash (extract (new_compacted height key n) height))
        × (node_sum (compacted (new_compacted height key n))
            ≡ node_sum (extract (new_compacted height key n) height))
  unfolding extract new_compacted compute_compacted_hash node_hash node_sum
  node_hash-extract height key n h = (
    ap (λ (p : NodeHash × ℕ). p.0)
        (compact_loop-extract_loop (max_tree_levels - height) height key (leaf n)),
    sym (node_sum-extract_loop (max_tree_levels - height) height key (leaf n) h),
  )
