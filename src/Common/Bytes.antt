-- ===== src/Common/Bytes.antt =====
-- `to_be_bytes` and `from_be_bytes` of Rust's unsigned integers, at every width.
use Prim.Native.Nat.{ℕ, zero, suc, ◌+◌, ◌*◌, ◌/◌, ◌%◌, ◌^◌, ◌≤◌, ◌<◌}
use mathlib.Core.Path.{◌≡◌, refl, ap, ◌∙◌}
use mathlib.Core.List.{List, [], ◌∷◌, ◌++◌, append-nil, append_assoc}
use native.Mathlib.Omega.{arith}
use native.Mathlib.Nat.{pow-suc, add-zero, zero-add}
use rust_tap.Common.Lists.{length, length-append, All, All-append}

abbrev pub IsByte : ℕ → Type 0
IsByte b = b < 256

-- The low `k` bytes of `v`, the most significant first.
unfoldable pub to_be_bytes : ℕ → ℕ → List ℕ
to_be_bytes zero v = []
to_be_bytes (suc k) v = to_be_bytes k (v / 256) ++ (v % 256 ∷ [])

be_loop : ℕ → List ℕ → ℕ
be_loop acc [] = acc
be_loop acc (b ∷ bs) = be_loop (acc * 256 + b) bs

unfoldable pub from_be_bytes : List ℕ → ℕ
unfolding be_loop
from_be_bytes bs = be_loop 0 bs

pub length-to_be_bytes : (k v : ℕ) → length (to_be_bytes k v) ≡ k
unfolding to_be_bytes
length-to_be_bytes zero v = refl
length-to_be_bytes (suc k) v =
    omega (
      arith,
      length-append (to_be_bytes k (v / 256)) (v % 256 ∷ []),
      length-to_be_bytes k (v / 256),
    )

pub to_be_bytes-IsByte : (k v : ℕ) → All IsByte (to_be_bytes k v)
unfolding to_be_bytes
to_be_bytes-IsByte zero v = tt
to_be_bytes-IsByte (suc k) v =
    All-append IsByte (to_be_bytes k (v / 256)) _ (to_be_bytes-IsByte k (v / 256)) (omega arith)

be_loop-append : (acc : ℕ) (xs ys : List ℕ) → be_loop acc (xs ++ ys) ≡ be_loop (be_loop acc xs) ys
unfolding be_loop
be_loop-append acc [] ys = refl
be_loop-append acc (x ∷ xs) ys = be_loop-append (acc * 256 + x) xs ys

pub from_be_bytes-to_be_bytes : (k v : ℕ) → v < 256 ^ k → from_be_bytes (to_be_bytes k v) ≡ v
unfolding from_be_bytes to_be_bytes
from_be_bytes-to_be_bytes zero v h = omega arith
from_be_bytes-to_be_bytes (suc k) v h =
    be_loop-append 0 (to_be_bytes k (v / 256)) (v % 256 ∷ [])
    ∙ omega (arith, from_be_bytes-to_be_bytes k (v / 256) (omega (arith, pow-suc 256 k)))

be_loop_onto :
    (j v : ℕ) (bs : List ℕ)
    → All IsByte bs
    → to_be_bytes (j + length bs) (be_loop v bs) ≡ to_be_bytes j v ++ bs
unfolding be_loop to_be_bytes
be_loop_onto j v [] h = rw (add-zero, append-nil)
be_loop_onto j v (b ∷ bs) h =
    ap (λ n. to_be_bytes n (be_loop (v * 256 + b) bs)) count
    ∙ be_loop_onto (suc j) (v * 256 + b) bs h.1
    ∙ rw (shifted, last) (append_assoc (to_be_bytes j v) (b ∷ []) bs)
  where
    count : j + suc (length bs) ≡ suc j + length bs
    count = omega arith

    shifted : (v * 256 + b) / 256 ≡ v
    shifted = omega (arith, h.0)

    last : (v * 256 + b) % 256 ≡ b
    last = omega (arith, h.0)

-- A byte string of length `k` is what `to_be_bytes` writes for the number that it reads as.
pub to_be_bytes-from_be_bytes :
    (bs : List ℕ) → All IsByte bs → to_be_bytes (length bs) (from_be_bytes bs) ≡ bs
unfolding from_be_bytes to_be_bytes
to_be_bytes-from_be_bytes bs h = rw zero-add at (be_loop_onto 0 0 bs h)

be_loop-lt : (v : ℕ) (bs : List ℕ) → All IsByte bs → be_loop v bs < suc v * 256 ^ length bs
unfolding be_loop
be_loop-lt v [] h = omega arith
be_loop-lt v (b ∷ bs) h =
    let widen : suc (v * 256 + b) * 256 ^ length bs ≤ (suc v * 256) * 256 ^ length bs =
      grind (arith, h.0) in
    omega (
      arith,
      be_loop-lt (v * 256 + b) bs h.1,
      widen,
      ap (λ (t : ℕ). suc v * t) (pow-suc 256 (length bs)),
    )

pub from_be_bytes-lt : (bs : List ℕ) → All IsByte bs → from_be_bytes bs < 256 ^ length bs
unfolding from_be_bytes
from_be_bytes-lt bs h = omega (arith, be_loop-lt 0 bs h)
