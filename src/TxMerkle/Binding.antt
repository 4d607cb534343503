-- ===== src/TxMerkle/Binding.antt =====
-- A Merkle root admits one transaction at each path, up to collisions of the hash function.
use rust_tap.Common.{◌≡◌, ◌∙◌, sym, ap, arith, Bool, true, false, inl, inr, ◌⊎◌, List, [], ◌∷◌}
use rust_tap.Common.{◌++◌, length, All, bytes_eq→eq, append_cancel}
use rust_tap.Mssmt.Hashing.{Sha256, Collision, eq_or_Collision}
use rust_tap.TxMerkle.{Hash32, TxMerkleProof, climb, climb_once, verify}

abbrev pub IsHash : Hash32 → Type 0
IsHash h = length h ≡ 32

module _ ⦃sha256d : Sha256⦄ where
  climb_once-IsHash : (x s : Hash32) (b : Bool) → IsHash (climb_once x s b)
  unfolding climb_once
  climb_once-IsHash x s true = sha256d.length-digest (x ++ s)
  climb_once-IsHash x s false = sha256d.length-digest (s ++ x)

  climb_once_injective :
      (x y s t : Hash32) (b : Bool)
      → IsHash x
      → IsHash y
      → IsHash s
      → IsHash t
      → climb_once x s b ≡ climb_once y t b
      → (x ≡ y) ⊎ Collision sha256d
  unfolding climb_once
  climb_once_injective x y s t true hx hy hs ht e = elim (eq_or_Collision sha256d _ _ e) [
    | inr c ↦ inr c
    | inl same ↦ inl (append_cancel x y s t (hx ∙ sym hy) same).0
  ]
  climb_once_injective x y s t false hx hy hs ht e = elim (eq_or_Collision sha256d _ _ e) [
    | inr c ↦ inr c
    | inl same ↦ inl (append_cancel s t x y (hs ∙ sym ht) same).1
  ]

  climb_injective :
      (x y : Hash32) (ns ms : List Hash32) (bits : List Bool)
      → IsHash x
      → IsHash y
      → All IsHash ns
      → All IsHash ms
      → length ns ≡ length bits
      → length ms ≡ length bits
      → climb x ns bits ≡ climb y ms bits
      → (x ≡ y) ⊎ Collision sha256d
  unfolding climb
  climb_injective x y [] [] bits hx hy hn hm en em e = inl e
  climb_injective x y [] (m ∷ ms) [] hx hy hn hm en em e = absurd (omega arith)
  climb_injective x y [] (m ∷ ms) (b ∷ bits) hx hy hn hm en em e = absurd (omega arith)
  climb_injective x y (n ∷ ns) [] [] hx hy hn hm en em e = absurd (omega arith)
  climb_injective x y (n ∷ ns) [] (b ∷ bits) hx hy hn hm en em e = absurd (omega arith)
  climb_injective x y (n ∷ ns) (m ∷ ms) [] hx hy hn hm en em e = absurd (omega arith)
  climb_injective x y (n ∷ ns) (m ∷ ms) (b ∷ bits) hx hy hn hm en em e =
      elim (climb_injective (climb_once x n b) (climb_once y m b) ns ms bits
        (climb_once-IsHash x n b) (climb_once-IsHash y m b) hn.1 hm.1 (omega arith) (omega arith)
        e) [ inr c ↦ inr c | inl same ↦ climb_once_injective x y n m b hx hy hn.0 hm.0 same ]

  verify_parts :
      (p : TxMerkleProof) (x root : Hash32)
      → verify p x root ≡ true
      → (length p.nodes ≡ length p.bits) × (climb x p.nodes p.bits ≡ root)
  unfolding verify
  verify_parts p x root e = ground (arith, bytes_eq→eq (climb x p.nodes p.bits) root)

  -- Two transactions that verify against one root along one path, that is with the same bits, are
  -- the same, or the two proofs show a collision of the hash function. Hashes have 32 bytes.
  pub verify-binding :
      (p q : TxMerkleProof) (x y root : Hash32)
      → p.bits ≡ q.bits
      → IsHash x
      → IsHash y
      → All IsHash p.nodes
      → All IsHash q.nodes
      → verify p x root ≡ true
      → verify q y root ≡ true
      → (x ≡ y) ⊎ Collision sha256d
  verify-binding p q x y root path hx hy hp hq e f =
      let (size_p, root_p) = verify_parts p x root e in
      let (size_q, root_q) = verify_parts q y root f in
      climb_injective x y p.nodes q.nodes p.bits hx hy hp hq size_p
        (size_q ∙ ap (λ (t : List Bool). length t) (sym path))
        (root_p ∙ sym root_q ∙ ap (climb y q.nodes) (sym path))
