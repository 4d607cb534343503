-- ===== src/Encoding/Tlv/Examples.antt =====
-- Tests of tlv.rs, and its theorems at concrete inputs.
use rust_tap.Common.{ℕ, ◌-◌, ◌^◌, ◌≡◌, ◌≢◌, refl, arith, none, some, List, [], ◌∷◌}
use rust_tap.Common.{ok, err, All}
use rust_tap.Common.Bytes.{from_be_bytes}
use rust_tap.Encoding.BigSize.{encode_bigsize, decode_bigsize, type_not_sorted}
use rust_tap.Encoding.BigSize.{value_too_large, offset_overflow}
use rust_tap.Encoding.Tlv.{TlvStream, encode, encode_records, encode_record}
use rust_tap.Encoding.Tlv.{decode_with_limit, decode_record, push, sort_by_type}
use rust_tap.Encoding.Tlv.{as_u8, as_u16, as_u32, as_u64, as_varint}
use rust_tap.Encoding.Tlv.{new_u8, new_u16, new_u32, new_u64, new_varint}
use rust_tap.Encoding.Tlv.Sorting.{IsAscending}
use rust_tap.Encoding.Tlv.Records.{as-new}
use rust_tap.Encoding.Tlv.RoundTrip.{Fits, decode_with_limit-encode}
use rust_tap.Encoding.Tlv.Canonical.{encode-decode_with_limit}
use rust_tap.Encoding.Tlv.Totality.{decode_with_limit-ne-none}

-- An even type that no reader knows, behind an odd one.
abbrev stream : TlvStream
stream = record {
  records =
      record { type_num = 8; value = 0xaa ∷ 0xbb ∷ [] }
      ∷ record { type_num = 3; value = 1 ∷ [] }
      ∷ [];
}

abbrev bytes : List ℕ
bytes = 3 ∷ 1 ∷ 1 ∷ 8 ∷ 2 ∷ 0xaa ∷ 0xbb ∷ []

abbrev sorted_stream : TlvStream
sorted_stream = record { records = sort_by_type stream.records }

encoded_sorted : encode stream ≡ bytes
unfolding encode encode_records encode_record sort_by_type encode_bigsize
encoded_sorted = refl

decode_bytes : decode_with_limit bytes 100 ≡ some (ok sorted_stream)
unfolding decode_with_limit decode_record push decode_bigsize sort_by_type
decode_bytes = refl

decode_repeated : decode_with_limit (3 ∷ 0 ∷ 3 ∷ 0 ∷ []) 100 ≡ some (err (type_not_sorted 3 3))
unfolding decode_with_limit decode_record push decode_bigsize
decode_repeated = refl

decode_too_large : decode_with_limit (3 ∷ 2 ∷ 0 ∷ 0 ∷ []) 1 ≡ some (err (value_too_large 3 2))
unfolding decode_with_limit decode_record push decode_bigsize
decode_too_large = refl

as-new_example :
    (as_u8 (new_u8 5 200) ≡ ok 200)
    × (as_u16 (new_u16 5 300) ≡ ok 300)
    × (as_u32 (new_u32 5 70000) ≡ ok 70000)
    × (as_u64 (new_u64 5 70000) ≡ ok 70000)
    × (as_varint (new_varint 5 300) ≡ ok 300)
as-new_example =
    as-new 5 200 300 70000 70000 300 (omega arith) (omega arith) (omega arith) (omega arith)
      (omega arith)

decode_with_limit-encode_example : decode_with_limit (encode stream) 100 ≡ some (ok sorted_stream)
decode_with_limit-encode_example =
    decode_with_limit-encode stream 100 (omega arith) (omega arith) (omega arith)

encode-decode_with_limit_example :
    (encode sorted_stream ≡ bytes)
    × IsAscending sorted_stream.records
    × All (Fits 100) sorted_stream.records
encode-decode_with_limit_example =
    encode-decode_with_limit bytes 100 sorted_stream (omega arith) decode_bytes

decode_with_limit-ne-none_example :
    (decode_with_limit (3 ∷ 200 ∷ []) 100 ≢ none)
    × (decode_with_limit (3 ∷ 200 ∷ []) 100 ≢ some (err offset_overflow))
decode_with_limit-ne-none_example =
    decode_with_limit-ne-none (3 ∷ 200 ∷ []) 100 (omega arith) (omega arith)

-- Without a limit, a length near 2 ^ 64 overflows.
overflow_run :
    decode_with_limit (1 ∷ 255 ∷ 255 ∷ 255 ∷ 255 ∷ 255 ∷ 255 ∷ 255 ∷ 255 ∷ 255 ∷ []) (2 ^ 64 - 1)
    ≡ some (err offset_overflow)
unfolding decode_with_limit decode_record decode_bigsize from_be_bytes
overflow_run = refl
