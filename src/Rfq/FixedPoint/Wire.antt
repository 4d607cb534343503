-- ===== src/Rfq/FixedPoint/Wire.antt =====
-- The `TlvFixedPoint` form: the coefficient's big-endian bytes without leading zeros.
use rust_tap.Common.{ℕ, zero, suc, ◌-◌, ◌^◌, ◌≤◌, ◌<◌, ◌≡◌, ◌∙◌, refl, sym, ap, arith, inl, inr}
use rust_tap.Common.{List, [], ◌∷◌, ◌++◌, length, ok, ◌==◌, replicate, All}
use rust_tap.Common.{Bool-cases, length-append, All-append, subst}
use rust_tap.Common.Bytes.{IsByte, to_be_bytes, from_be_bytes, length-to_be_bytes}
use rust_tap.Common.Bytes.{from_be_bytes-to_be_bytes, to_be_bytes-from_be_bytes, from_be_bytes-lt}
use rust_tap.Rfq.FixedPoint.{FixedPoint, trim_zeros, encode_tlv, decode_tlv}

length-trim_zeros : (bs : List ℕ) → length (trim_zeros bs) ≤ length bs
unfolding trim_zeros
length-trim_zeros [] = omega arith
length-trim_zeros (b ∷ bs) = ground (arith, length-trim_zeros bs)

-- The zeros that were cut, put back.
refill : (bs : List ℕ) → replicate (length bs - length (trim_zeros bs)) 0 ++ trim_zeros bs ≡ bs
unfolding trim_zeros
refill [] = refl
refill (b ∷ bs) = elim (Bool-cases (b == 0)) [
  | inl e ↦
      let count : suc (length bs) - length (trim_zeros bs)
          ≡ suc (length bs - length (trim_zeros bs)) =
        omega (arith, length-trim_zeros bs) in
      let zero_byte : b ≡ 0 = ground arith in
      rw (e, trim_zeros) (rw count (rw (refill bs) (ap (λ x. x ∷ bs) (sym zero_byte))))
  | inr e ↦
      let count : suc (length bs) - suc (length bs) ≡ 0 = omega arith in
      rw (e, trim_zeros) (rw count refl)
]

refill_16 :
    (bs : List ℕ) → length bs ≡ 16 → replicate (16 - length (trim_zeros bs)) 0 ++ trim_zeros bs ≡ bs
refill_16 bs h =
    ap (λ n. replicate (n - length (trim_zeros bs)) 0 ++ trim_zeros bs) (sym h) ∙ refill bs

-- Decoding the encoding of a fixed-point number whose coefficient is a `u128` gives it back.
pub decode_tlv-encode_tlv :
    (f : FixedPoint) → f.coefficient < 2 ^ 128 → decode_tlv (encode_tlv f) ≡ ok f
unfolding decode_tlv encode_tlv
decode_tlv-encode_tlv f h =
    let bs = to_be_bytes 16 f.coefficient in
    let read : from_be_bytes (replicate (16 - length (trim_zeros bs)) 0 ++ trim_zeros bs)
        ≡ f.coefficient =
      ap from_be_bytes (refill_16 bs (length-to_be_bytes 16 f.coefficient))
      ∙ from_be_bytes-to_be_bytes 16 f.coefficient h in
    ground (arith, read, length-trim_zeros bs, length-to_be_bytes 16 f.coefficient)

trim_zeros-replicate : (n : ℕ) (bs : List ℕ) → trim_zeros (replicate n 0 ++ bs) ≡ trim_zeros bs
unfolding trim_zeros
trim_zeros-replicate zero bs = refl
trim_zeros-replicate (suc n) bs = trim_zeros-replicate n bs

zeros-IsByte : (n : ℕ) → All IsByte (replicate n 0)
zeros-IsByte zero = tt
zeros-IsByte (suc n) = (omega arith, zeros-IsByte n)

length-replicate : (n : ℕ) → length (replicate {A = ℕ} n 0) ≡ n
length-replicate zero = refl
length-replicate (suc n) = ap suc (length-replicate n)

padded : (n : ℕ) (bs : List ℕ) → length bs ≤ n → length (replicate (n - length bs) 0 ++ bs) ≡ n
padded n bs h =
    omega (arith, length-append (replicate (n - length bs) 0) bs, length-replicate (n - length bs))

decode_tlv_parts :
    (scale : ℕ) (bs : List ℕ) (f : FixedPoint)
    → decode_tlv (scale ∷ bs) ≡ ok f
    → (length bs ≤ 16) × (f.coefficient ≡ from_be_bytes (replicate (16 - length bs) 0 ++ bs))
unfolding decode_tlv
decode_tlv_parts scale bs f e = ground arith

-- The encoding of a number that was decoded from bytes is at most as long as those bytes, and
-- decodes to the same number: `encode_tlv` writes the shortest form.
pub encode_tlv-decode_tlv :
    (bytes : List ℕ) (f : FixedPoint)
    → All IsByte bytes
    → decode_tlv bytes ≡ ok f
    → (length (encode_tlv f) ≤ length bytes) × (decode_tlv (encode_tlv f) ≡ ok f)
encode_tlv-decode_tlv [] f h e = unfold decode_tlv in cc
encode_tlv-decode_tlv (scale ∷ bs) f h e =
    let (small, value) = decode_tlv_parts scale bs f e in
    let wide = replicate (16 - length bs) 0 ++ bs in
    let size : length wide ≡ 16 = padded 16 bs small in
    let bytes_ok : All IsByte wide =
      All-append IsByte (replicate (16 - length bs) 0) bs (zeros-IsByte (16 - length bs)) h.1 in
    let back : to_be_bytes 16 f.coefficient ≡ wide =
      ap (to_be_bytes 16) value
      ∙ ap (λ n. to_be_bytes n (from_be_bytes wide)) (sym size)
      ∙ to_be_bytes-from_be_bytes wide bytes_ok in
    let cut : trim_zeros (to_be_bytes 16 f.coefficient) ≡ trim_zeros bs =
      ap trim_zeros back ∙ trim_zeros-replicate (16 - length bs) bs in
    let fits : from_be_bytes wide < 256 ^ 16 =
      subst (λ n. from_be_bytes wide < 256 ^ n) size (from_be_bytes-lt wide bytes_ok) in
    (
      unfold encode_tlv in omega (arith, ap (λ (t : List ℕ). length t) cut, length-trim_zeros bs),
      decode_tlv-encode_tlv f (omega (arith, value, fits)),
    )
