-- ===== src/Encoding/Tlv/Records.antt =====
-- The typed constructors and readers of a TLV record.
use rust_tap.Common.{ℕ, ◌^◌, ◌<◌, ◌≡◌, ◌∙◌, refl, sym, ap, arith, List, [], ok}
use rust_tap.Common.{length, take, append-nil, take-append_length}
use rust_tap.Common.Bytes.{to_be_bytes, from_be_bytes, length-to_be_bytes}
use rust_tap.Common.Bytes.{from_be_bytes-to_be_bytes}
use rust_tap.Encoding.BigSize.RoundTrip.{decode_bigsize-encode_bigsize}
use rust_tap.Encoding.Tlv.{new_u8, new_u16, new_u32, new_u64, new_varint}
use rust_tap.Encoding.Tlv.{as_u8, as_u16, as_u32, as_u64, as_varint}

take_whole : (k : ℕ) (xs : List ℕ) → length xs ≡ k → take k xs ≡ xs
take_whole k xs e = ap (λ n. take n xs) (sym e) ∙ rw append-nil at (take-append_length xs [])

read_word : (k v : ℕ) → v < 256 ^ k → from_be_bytes (take k (to_be_bytes k v)) ≡ v
read_word k v h =
    ap from_be_bytes (take_whole k (to_be_bytes k v) (length-to_be_bytes k v))
    ∙ from_be_bytes-to_be_bytes k v h

-- Each reader gives back the number that the constructor of its width was given, at every number
-- of that width.
pub as-new :
    (t a b c d e : ℕ)
    → a < 2 ^ 8
    → b < 2 ^ 16
    → c < 2 ^ 32
    → d < 2 ^ 64
    → e < 2 ^ 64
    → (as_u8 (new_u8 t a) ≡ ok a)
      × (as_u16 (new_u16 t b) ≡ ok b)
      × (as_u32 (new_u32 t c) ≡ ok c)
      × (as_u64 (new_u64 t d) ≡ ok d)
      × (as_varint (new_varint t e) ≡ ok e)
unfolding as_u8 as_u16 as_u32 as_u64 as_varint new_u8 new_u16 new_u32 new_u64 new_varint
as-new t a b c d e ha hb hc hd he = (
  refl,
  ground (arith, length-to_be_bytes 2 b, read_word 2 b),
  ground (arith, length-to_be_bytes 4 c, read_word 4 c),
  ground (arith, length-to_be_bytes 8 d, read_word 8 d),
  rw (rw append-nil at (decode_bigsize-encode_bigsize e [] he)) refl,
)
