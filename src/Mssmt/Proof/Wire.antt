-- ===== src/Mssmt/Proof/Wire.antt =====
-- The wire form of a compressed proof: `decode` is inverse to `encode`.
use rust_tap.Common.{ℕ, ◌+◌, ◌*◌, ◌%◌, ◌^◌, ◌≤◌, ◌<◌, ◌≡◌, ◌∙◌, refl, sym, ap, arith}
use rust_tap.Common.{List, [], ◌∷◌, ◌++◌, append_assoc, length, take, drop, All, ok}
use rust_tap.Common.{length-append, take-append_length, drop-append_length}
use rust_tap.Common.Bytes.{
  to_be_bytes, from_be_bytes, length-to_be_bytes, from_be_bytes-to_be_bytes,
}
use rust_tap.Mssmt.Node.{ComputedNode, max_tree_levels}
use rust_tap.Mssmt.Proof.{CompressedProof, encode_nodes, encode, decode_nodes, decode, pack_bits}
use rust_tap.Mssmt.Proof.{unpack_bits}
use rust_tap.Mssmt.Proof.Bits.{unpack_bits-pack_bits, length-pack_bits}

-- `take` and `drop` of a prefix whose length is known.
take_prefix : (k : ℕ) (xs ys : List ℕ) → length xs ≡ k → take k (xs ++ ys) ≡ xs
take_prefix k xs ys e = ap (λ n. take n (xs ++ ys)) (sym e) ∙ take-append_length xs ys

drop_prefix : (k : ℕ) (xs ys : List ℕ) → length xs ≡ k → drop k (xs ++ ys) ≡ ys
drop_prefix k xs ys e = ap (λ n. drop n (xs ++ ys)) (sym e) ∙ drop-append_length xs ys

-- The bounds that the Rust types set: 32 bytes of hash, a `u64`.
pub record IsValidNode (n : ComputedNode) : Type 0 where
  pub hash : length n.hash ≡ 32
  pub sum : n.sum < 2 ^ 64

decode_nodes-encode_nodes :
    (nodes : List ComputedNode) (rest : List ℕ)
    → All IsValidNode nodes
    → decode_nodes (length nodes) (encode_nodes nodes ++ rest) ≡ (nodes, rest)
unfolding decode_nodes encode_nodes
decode_nodes-encode_nodes [] rest h = refl
decode_nodes-encode_nodes (n ∷ ns) rest h =
    rw (split, take_prefix 32 n.hash after h.0.hash, drop_prefix 32 n.hash after h.0.hash)
      (rw (
        take_prefix 8 (to_be_bytes 8 n.sum) tail (length-to_be_bytes 8 n.sum),
        drop_prefix 8 (to_be_bytes 8 n.sum) tail (length-to_be_bytes 8 n.sum),
        decode_nodes-encode_nodes ns rest h.1,
        from_be_bytes-to_be_bytes 8 n.sum h.0.sum,
      ))
  where
    tail : List ℕ
    tail = encode_nodes ns ++ rest

    after : List ℕ
    after = to_be_bytes 8 n.sum ++ tail

    split : ((n.hash ++ to_be_bytes 8 n.sum) ++ encode_nodes ns) ++ rest ≡ n.hash ++ after
    split = simp append_assoc

length-encode_nodes :
    (nodes : List ComputedNode)
    → All IsValidNode nodes
    → length (encode_nodes nodes) ≡ length nodes * 40
unfolding encode_nodes
length-encode_nodes [] h = omega arith
length-encode_nodes (n ∷ ns) h = omega (
  arith,
  length-append (n.hash ++ to_be_bytes 8 n.sum) (encode_nodes ns),
  length-append n.hash (to_be_bytes 8 n.sum),
  length-to_be_bytes 8 n.sum,
  h.0.hash,
  length-encode_nodes ns h.1,
)

-- 256 bits, and as many nodes as their `u16` count can hold.
pub record IsValid (p : CompressedProof) : Type 0 where
  pub bits : length p.bits ≡ max_tree_levels
  pub count : length p.nodes < 2 ^ 16
  pub nodes : All IsValidNode p.nodes

decode_steps :
    (bytes : List ℕ) (k : ℕ) (nodes : List ComputedNode) (rest : List ℕ)
    → 2 + k * 40 + 32 ≤ length bytes
    → from_be_bytes (take 2 bytes) ≡ k
    → decode_nodes k (drop 2 bytes) ≡ (nodes, rest)
    → decode bytes ≡ ok (record { bits = unpack_bits (take 32 rest); nodes = nodes })
unfolding decode
decode_steps bytes k nodes rest room count read = ground (arith, room, count, read)

-- Decoding what a compressed proof was encoded to gives it back, whatever bytes follow.
pub decode-encode :
    (p : CompressedProof) (rest : List ℕ) → IsValid p → decode (encode p ++ rest) ≡ ok p
decode-encode p rest h =
    ap decode split
    ∙ decode_steps (head ++ tail) (length p.nodes) p.nodes (pack_bits p.bits ++ rest) room
        (ap from_be_bytes (take_prefix 2 head tail (length-to_be_bytes 2 _))
          ∙ from_be_bytes-to_be_bytes 2 _ (omega arith)
          ∙ omega (arith, h.count))
        (ap (decode_nodes (length p.nodes)) (drop_prefix 2 head tail (length-to_be_bytes 2 _))
          ∙ decode_nodes-encode_nodes p.nodes (pack_bits p.bits ++ rest) h.nodes)
    ∙ rw (
      take_prefix 32 (pack_bits p.bits) rest (length-pack_bits p.bits),
      unpack_bits-pack_bits p.bits h.bits,
    )
  where
    head : List ℕ
    head = to_be_bytes 2 (length p.nodes % 2 ^ 16)

    tail : List ℕ
    tail = encode_nodes p.nodes ++ (pack_bits p.bits ++ rest)

    split : encode p ++ rest ≡ head ++ tail
    split = unfold encode in simp append_assoc

    room : 2 + length p.nodes * 40 + 32 ≤ length (head ++ tail)
    room = omega (
      arith,
      length-append head tail,
      length-to_be_bytes 2 (length p.nodes % 2 ^ 16),
      length-append (encode_nodes p.nodes) (pack_bits p.bits ++ rest),
      length-append (pack_bits p.bits) rest,
      length-encode_nodes p.nodes h.nodes,
      length-pack_bits p.bits,
    )
