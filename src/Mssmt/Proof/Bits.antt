-- ===== src/Mssmt/Proof/Bits.antt =====
-- The bit vector of a compressed proof: `unpack_bits` is inverse to `pack_bits`.
use rust_tap.Common.{
  ℕ, zero, suc, ◌+◌, ◌-◌, ◌/◌, ◌%◌, ◌^◌, ◌≤◌, ◌<◌, ◌≡◌, ◌∙◌, refl, sym, ap, arith,
}
use rust_tap.Common.{Bool, true, false, ◌&&◌, List, [], ◌∷◌, length, All, set, get_or, replicate}
use rust_tap.Common.{ltb, ltb→lt, ◌==◌, if◌then◌else◌, inl, inr, Bool-cases, ==_iff}
use rust_tap.Common.Bytes.{IsByte}
use rust_tap.Mssmt.Node.{max_tree_levels}
use rust_tap.Mssmt.Proof.{set_bit, pack_loop, pack_bits, bit_at, unpack_loop, unpack_bits}
use native.Mathlib.Decide.{ℕ_discrete}
use mathlib.Core.Path.{ap₂}
use Prim.Native.Nat.{bit_or}
use native.Mathlib.Nat.{zero-add}

-- A test on all numbers below a bound, and what its success says of one of them.
module _ (test : ℕ → Bool) where
  passes : ℕ → Bool
  passes zero = true
  passes (suc bound) = elim (test bound) [ true ↦ passes bound | false ↦ false ]

  passes-at : {bound : ℕ} (k : ℕ) → k < bound → passes bound ≡ true → test k ≡ true
  unfolding passes
  passes-at {bound = zero} k below table = absurd (omega arith)
  passes-at {bound = suc bound} k below table = elim (ℕ_discrete k bound) [
    | yes last ↦ rw last (ground arith)
    | no earlier ↦ passes-at {bound = bound} k (omega arith) (ground arith)
  ]

-- Setting bit `k` of a byte sets that bit, and changes no other.
or_entry : ℕ → ℕ → ℕ → Bool
or_entry k m x =
    (bit_or x (2 ^ k) / 2 ^ m) % 2 == (if m == k then 1 else x / 2 ^ m % 2)
    && ltb (bit_or x (2 ^ k)) 256

or_table : passes (λ k. passes (λ m. passes (or_entry k m) 256) 8) 8 ≡ true
unfolding passes or_entry
or_table = refl

&&-true : (a b : Bool) → (a && b) ≡ true → (a ≡ true) × (b ≡ true)
&&-true a b h = ground arith

or_fact :
    (k m x : ℕ)
    → k < 8
    → m < 8
    → x < 256
    → ((bit_or x (2 ^ k) / 2 ^ m) % 2 ≡ (if m == k then 1 else x / 2 ^ m % 2))
      × (bit_or x (2 ^ k) < 256)
unfolding or_entry
or_fact k m x hk hm hx =
    let row = passes-at (λ k'. passes (λ m'. passes (or_entry k' m') 256) 8) k hk or_table in
    let cell = passes-at (λ m'. passes (or_entry k m') 256) m hm row in
    let entry = passes-at (or_entry k m) x hx cell in
    let (value, small) = &&-true _ _ entry in ((==_iff _ _).0 value, ltb→lt _ _ small)

get_or-set :
    (xs : List ℕ) (i j v : ℕ)
    → i < length xs
    → get_or (set xs i v) j 0 ≡ (if i == j then v else get_or xs j 0)
get_or-set [] i j v h = absurd (omega arith)
get_or-set (x ∷ xs) zero zero v h = refl
get_or-set (x ∷ xs) zero (suc j) v h = ground arith
get_or-set (x ∷ xs) (suc i) zero v h = ground arith
get_or-set (x ∷ xs) (suc i) (suc j) v h = ground (arith, get_or-set xs i j v (omega arith))

length-set : (xs : List ℕ) (i v : ℕ) → length (set xs i v) ≡ length xs
length-set [] i v = refl
length-set (x ∷ xs) zero v = refl
length-set (x ∷ xs) (suc i) v = ap suc (length-set xs i v)

set-IsByte : (xs : List ℕ) (i v : ℕ) → All IsByte xs → v < 256 → All IsByte (set xs i v)
set-IsByte [] i v h hv = tt
set-IsByte (x ∷ xs) zero v h hv = (hv, h.1)
set-IsByte (x ∷ xs) (suc i) v h hv = (h.0, set-IsByte xs i v h.1 hv)

get_or-IsByte : (xs : List ℕ) (i : ℕ) → All IsByte xs → get_or xs i 0 < 256
get_or-IsByte [] i h = omega arith
get_or-IsByte (x ∷ xs) zero h = h.0
get_or-IsByte (x ∷ xs) (suc i) h = get_or-IsByte xs i h.1

-- 32 bytes.
record IsPacked (packed : List ℕ) : Type 0 where
  count : length packed ≡ 32
  all_bytes : All IsByte packed

set_bit-IsPacked : (packed : List ℕ) (i : ℕ) → IsPacked packed → IsPacked (set_bit packed i)
unfolding set_bit
set_bit-IsPacked packed i h = record {
  count = length-set packed (i / 8) _ ∙ h.count;
  all_bytes =
      set-IsByte packed (i / 8) _ h.all_bytes
        (or_fact (i % 8) 0 (get_or packed (i / 8) 0) (omega arith) (omega arith)
          (get_or-IsByte packed (i / 8) h.all_bytes)).1;
}

bit_at-set_bit :
    (packed : List ℕ) (i j : ℕ)
    → IsPacked packed
    → i < 256
    → bit_at (set_bit packed i) j ≡ (if i == j then true else bit_at packed j)
unfolding set_bit bit_at
bit_at-set_bit packed i j h hi =
    let fact =
      or_fact (i % 8) (j % 8) (get_or packed (i / 8) 0) (omega arith) (omega arith)
        (get_or-IsByte packed (i / 8) h.all_bytes) in
    let got =
      get_or-set packed (i / 8) (j / 8) (bit_or (get_or packed (i / 8) 0) (2 ^ (i % 8)))
        (omega (arith, h.count)) in
    elim (Bool-cases (i / 8 == j / 8)) [
      | inr a ↦ let differ : (i == j) ≡ false = ground arith in rw (got, a, differ) refl
      | inl a ↦
          let byte : i / 8 ≡ j / 8 = (==_iff _ _).0 a in
          elim (Bool-cases (j % 8 == i % 8)) [
            | inl b ↦ let same : (i == j) ≡ true = ground arith in rw (got, a, fact.0, b, same) refl
            | inr b ↦
                let differ : (i == j) ≡ false = ground arith in
                rw (got, a, fact.0, b, differ, byte) refl
          ]
    ]

-- The bits from `i` on are those of the list; the bits before are those of `packed`.
abbrev shown : List ℕ → ℕ → List Bool → ℕ → Bool
shown packed i bits j = if ltb j i then bit_at packed j else get_or bits (j - i) false

get_or_later :
    (b : Bool) (bits : List Bool) (i j : ℕ)
    → i < j
    → get_or (b ∷ bits) (j - i) false ≡ get_or bits (j - (i + 1)) false
get_or_later b bits i j h =
    let e : j - i ≡ suc (j - (i + 1)) = omega arith in ap (λ n. get_or (b ∷ bits) n false) e

get_or_now : (b : Bool) (bits : List Bool) (i j : ℕ) → i ≡ j → get_or (b ∷ bits) (j - i) false ≡ b
get_or_now b bits i j h = let e : j - i ≡ 0 = omega arith in ap (λ n. get_or (b ∷ bits) n false) e

-- One round, where `packed'` is `packed` with bit `i` as the list has it.
shown_round :
    (packed packed' : List ℕ) (i : ℕ) (b : Bool) (bits : List Bool) (j : ℕ)
    → bit_at packed' j ≡ (if i == j then b else bit_at packed j)
    → shown packed' (i + 1) bits j ≡ shown packed i (b ∷ bits) j
shown_round packed packed' i b bits j e =
    ground (arith, get_or_later b bits i j, get_or_now b bits i j)

pack_loop-bit_at :
    (packed : List ℕ) (i : ℕ) (bits : List Bool) (j : ℕ)
    → IsPacked packed
    → i + length bits ≤ 256
    → (i ≤ j → bit_at packed j ≡ false)
    → bit_at (pack_loop packed i bits) j ≡ shown packed i bits j
unfolding pack_loop
pack_loop-bit_at packed i [] j h hi clear = ground (arith, clear)
pack_loop-bit_at packed i (true ∷ bits) j h hi clear =
    let now = bit_at-set_bit packed i j h (omega arith) in
    pack_loop-bit_at (set_bit packed i) (i + 1) bits j (set_bit-IsPacked packed i h) (omega arith)
      (λ lt. ground (arith, now, clear))
    ∙ shown_round packed (set_bit packed i) i true bits j now
pack_loop-bit_at packed i (false ∷ bits) j h hi clear =
    pack_loop-bit_at packed (i + 1) bits j h (omega arith) (λ lt. clear (omega arith))
    ∙ shown_round packed packed i false bits j (ground (arith, clear))

zeros-IsPacked : IsPacked (replicate 32 0)
zeros-IsPacked = record { count = refl; all_bytes = omega arith }

pack_loop-IsPacked :
    (packed : List ℕ) (i : ℕ) (bits : List Bool)
    → IsPacked packed
    → IsPacked (pack_loop packed i bits)
unfolding pack_loop
pack_loop-IsPacked packed i [] h = h
pack_loop-IsPacked packed i (true ∷ bits) h =
    pack_loop-IsPacked (set_bit packed i) (i + 1) bits (set_bit-IsPacked packed i h)
pack_loop-IsPacked packed i (false ∷ bits) h = pack_loop-IsPacked packed (i + 1) bits h

pub length-pack_bits : (bits : List Bool) → length (pack_bits bits) ≡ 32
unfolding pack_bits
length-pack_bits bits = (pack_loop-IsPacked (replicate 32 0) 0 bits zeros-IsPacked).count

get_or-replicate : (n i : ℕ) → get_or {A = ℕ} (replicate n 0) i 0 ≡ 0
get_or-replicate zero i = refl
get_or-replicate (suc n) zero = refl
get_or-replicate (suc n) (suc i) = get_or-replicate n i

bit_at-pack_bits :
    (bits : List Bool) (j : ℕ)
    → length bits ≡ max_tree_levels
    → bit_at (pack_bits bits) j ≡ get_or bits j false
unfolding pack_bits
bit_at-pack_bits bits j h =
    pack_loop-bit_at (replicate 32 0) 0 bits j zeros-IsPacked (omega arith)
      (λ _. unfold bit_at in rw (get_or-replicate 32 (j / 8)) (ground arith))
    ∙ ground arith

unpack_loop-bits :
    (i : ℕ) (packed : List ℕ) (bits : List Bool)
    → ((j : ℕ) → bit_at packed (i + j) ≡ get_or bits j false)
    → unpack_loop (length bits) i packed ≡ bits
unfolding unpack_loop
unpack_loop-bits i packed [] h = refl
unpack_loop-bits i packed (b ∷ bits) h =
    ap₂ (λ x xs. x ∷ xs) (ap (bit_at packed) (omega arith) ∙ h 0)
      (unpack_loop-bits (i + 1) packed bits (λ j. ap (bit_at packed) (omega arith) ∙ h (suc j)))

-- Unpacking 256 packed bits gives them back.
pub unpack_bits-pack_bits :
    (bits : List Bool) → length bits ≡ max_tree_levels → unpack_bits (pack_bits bits) ≡ bits
unfolding unpack_bits
unpack_bits-pack_bits bits h =
    ap (λ n. unpack_loop n 0 (pack_bits bits)) (sym h)
    ∙ unpack_loop-bits 0 (pack_bits bits) bits
        (λ j. ap (bit_at (pack_bits bits)) (zero-add j) ∙ bit_at-pack_bits bits j h)
