-- ===== src/Mssmt/Proof/Compression.antt =====
-- Compressing a proof loses nothing that a verifier sees.
use rust_tap.Common.{ℕ, zero, suc, ◌-◌, ◌≡◌, refl, sym, arith, true}
use rust_tap.Common.{List, [], ◌∷◌, ok, ◌==◌}
use rust_tap.Common.{inl, inr, Bool-cases, bytes_eq→eq}
use rust_tap.Mssmt.Hashing.{Sha256}
use rust_tap.Mssmt.Node.{Key, Node, computed}
use rust_tap.Mssmt.Node.{node_hash, node_sum, bit_index, join}
use rust_tap.Mssmt.Node.{is_equal_node, max_tree_levels, empty_tree}
use rust_tap.Mssmt.Proof.{Proof, root_loop}
use rust_tap.Mssmt.Proof.{compress, decompress, compress_loop, decompress_loop}

module _ ⦃sha256 : Sha256⦄ where
  -- What a parent reads of a child.
  pub record SameNode (m n : Node) : Type 0 where
    pub hash : node_hash m ≡ node_hash n
    pub sum : node_sum m ≡ node_sum n

  pub is_equal_node→SameNode : (m n : Node) → is_equal_node m n ≡ true → SameNode m n
  unfolding is_equal_node
  is_equal_node→SameNode m n e = record {
    hash = ground (arith, bytes_eq→eq (node_hash m) (node_hash n));
    sum = ground arith;
  }

  abbrev pub SameNodes : List Node → List Node → Type 0
  SameNodes [] [] = Unit {0}
  SameNodes [] (n ∷ ns) = ⊥
  SameNodes (m ∷ ms) [] = ⊥
  SameNodes (m ∷ ms) (n ∷ ns) = SameNode m n × SameNodes ms ns

  join-SameNode :
      (key : Key) (i : ℕ) {m n s t : Node}
      → SameNode m n
      → SameNode s t
      → SameNode (join key i m s) (join key i n t)
  unfolding join node_hash node_sum
  join-SameNode key i h k = elim (Bool-cases (bit_index i key == 0)) [
    | inl b ↦ rw b (record { hash = cc (h.hash, h.sum, k.hash, k.sum); sum = cc (h.sum, k.sum) })
    | inr b ↦ rw b (record { hash = cc (h.hash, h.sum, k.hash, k.sum); sum = cc (h.sum, k.sum) })
  ]

  pub root_loop-SameNode :
      (i : ℕ) (key : Key) (m n : Node) (ss ts : List Node)
      → SameNode m n
      → SameNodes ss ts
      → SameNode (root_loop i key m ss) (root_loop i key n ts)
  unfolding root_loop
  root_loop-SameNode zero key m n ss ts h k = h
  root_loop-SameNode (suc i) key m n [] [] h k = h
  root_loop-SameNode (suc i) key m n [] (t ∷ ts) h k = absurd k
  root_loop-SameNode (suc i) key m n (s ∷ ss) [] h k = absurd k
  root_loop-SameNode (suc i) key m n (s ∷ ss) (t ∷ ts) h k =
      root_loop-SameNode i key (join key i m s) (join key i n t) ss ts (join-SameNode key i h k.0)
        k.1

  -- What the two loops give back.
  record Restores (level : ℕ) (nodes : List Node) : Type 0 where
    restored : List Node
    result :
        decompress_loop level (compress_loop level nodes).0 (compress_loop level nodes).1
        ≡ ok restored
    same : SameNodes restored nodes

  loops-Restores : (level : ℕ) (nodes : List Node) → Restores level nodes
  unfolding compress_loop decompress_loop
  loops-Restores level [] = record { restored = []; result = refl; same = tt }
  loops-Restores level (n ∷ ns) =
      let later = loops-Restores (level - 1) ns in
      elim (Bool-cases (is_equal_node n (empty_tree level))) [
        | inl e ↦
            let s = is_equal_node→SameNode n (empty_tree level) e in
            record {
              restored = empty_tree level ∷ later.restored;
              result = rw (e, later.result);
              same = (record { hash = sym s.hash; sum = sym s.sum }, later.same);
            }
        | inr e ↦ record {
          restored = computed (record { hash = node_hash n; sum = node_sum n }) ∷ later.restored;
          result = rw (e, later.result);
          same = (unfold node_hash node_sum in record { hash = refl; sum = refl }, later.same);
        }
      ]

  pub record Decompressed (p : Proof) : Type 0 where
    pub proof : Proof
    pub result : decompress (compress p) ≡ ok proof
    pub same : SameNodes proof.nodes p.nodes

  -- Decompressing a compressed proof succeeds, and each node has the hash and the sum of the
  -- node that stood there.
  pub decompress-compress : (p : Proof) → Decompressed p
  unfolding decompress compress
  decompress-compress p =
      let r = loops-Restores max_tree_levels p.nodes in
      record { proof = record { nodes = r.restored }; result = rw r.result; same = r.same }
