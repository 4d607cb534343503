-- ===== src/Encoding/Tlv.antt =====
-- tap-primitives/src/encoding/tlv.rs: TLV records and streams.
pub mod Records
pub mod Sorting
pub mod RoundTrip
pub mod Canonical
pub mod Totality
mod Examples
use rust_tap.Common.{ℕ, zero, suc, ◌+◌, ◌-◌, ◌*◌, ◌%◌, ◌^◌, Bool, true, false, Option, none, some}
use rust_tap.Common.{List, [], ◌∷◌, ◌++◌, Result, ok, err, ◌>>=◌, ◌>>◌, ensure}
use rust_tap.Common.{ltb, leb, ◌==◌, if◌then◌else◌, length, get_or, take, drop}
use rust_tap.Common.Bytes.{to_be_bytes, from_be_bytes}
use rust_tap.Encoding.BigSize.{TlvError, unexpected_eof, type_not_sorted, value_too_large}
use rust_tap.Encoding.BigSize.{decoding_error, offset_overflow, encode_bigsize, decode_bigsize}

pub record TlvRecord : Type 0 where
  pub type_num : ℕ
  pub value : List ℕ

-- The constructors of a record from a number: `new_u8` is the source's `TlvRecord::u8`, and so on.
unfoldable pub new_u8 : ℕ → ℕ → TlvRecord
new_u8 type_num val = record { type_num = type_num; value = val ∷ [] }

unfoldable pub new_u16 : ℕ → ℕ → TlvRecord
new_u16 type_num val = record { type_num = type_num; value = to_be_bytes 2 val }

unfoldable pub new_u32 : ℕ → ℕ → TlvRecord
new_u32 type_num val = record { type_num = type_num; value = to_be_bytes 4 val }

unfoldable pub new_u64 : ℕ → ℕ → TlvRecord
new_u64 type_num val = record { type_num = type_num; value = to_be_bytes 8 val }

unfoldable pub new_varint : ℕ → ℕ → TlvRecord
new_varint type_num val = record { type_num = type_num; value = encode_bigsize [] val }

-- `value[0]`: the default is not reached, since the length has been tested.
unfoldable pub as_u8 : TlvRecord → Result ℕ TlvError
as_u8 r =
    if length r.value == 1 then ok (get_or r.value 0 0) else err (decoding_error 1 (length r.value))

unfoldable pub as_u16 : TlvRecord → Result ℕ TlvError
as_u16 r =
    if length r.value == 2
    then ok (from_be_bytes (take 2 r.value))
    else err (decoding_error 2 (length r.value))

unfoldable pub as_u32 : TlvRecord → Result ℕ TlvError
as_u32 r =
    if length r.value == 4
    then ok (from_be_bytes (take 4 r.value))
    else err (decoding_error 4 (length r.value))

unfoldable pub as_u64 : TlvRecord → Result ℕ TlvError
as_u64 r =
    if length r.value == 8
    then ok (from_be_bytes (take 8 r.value))
    else err (decoding_error 8 (length r.value))

unfoldable pub as_varint : TlvRecord → Result ℕ TlvError
as_varint r = do (val, consumed) ← decode_bigsize r.value; ok val

unfoldable pub is_odd : TlvRecord → Bool
is_odd r = r.type_num % 2 == 1

abbrev pub max_tlv_value_length : ℕ
max_tlv_value_length = 4_000_000

abbrev pub max_proof_tlv_value_length : ℕ
max_proof_tlv_value_length = 128 * 1024 * 1024

pub record TlvStream : Type 0 where
  pub records : List TlvRecord

unfoldable pub push : TlvStream → TlvRecord → TlvStream
push s r = record { records = s.records ++ (r ∷ []) }

unfoldable pub push_if : TlvStream → TlvRecord → Bool → TlvStream
push_if s r condition = if condition then push s r else s

find_type : ℕ → List TlvRecord → Option TlvRecord
find_type t [] = none
find_type t (r ∷ rs) = if r.type_num == t then some r else find_type t rs

unfoldable pub get : TlvStream → ℕ → Option TlvRecord
unfolding find_type
get s t = find_type t s.records

-- `sort_by_key` is a stable sort; insertion sort computes the one stable result.
unfoldable pub insert_by_type : TlvRecord → List TlvRecord → List TlvRecord
insert_by_type r [] = r ∷ []
insert_by_type r (x ∷ xs) =
    if leb r.type_num x.type_num then r ∷ x ∷ xs else x ∷ insert_by_type r xs

unfoldable pub sort_by_type : List TlvRecord → List TlvRecord
unfolding insert_by_type
sort_by_type [] = []
sort_by_type (r ∷ rs) = insert_by_type r (sort_by_type rs)

-- `value.len() as u64` keeps the length: no `Vec` has more than 2 ^ 63 bytes.
unfoldable pub encode_record : List ℕ → TlvRecord → List ℕ
encode_record buf r = encode_bigsize (encode_bigsize buf r.type_num) (length r.value) ++ r.value

unfoldable pub encode_records : List ℕ → List TlvRecord → List ℕ
encode_records buf [] = buf
encode_records buf (r ∷ rs) = encode_records (encode_record buf r) rs

unfoldable pub encode : TlvStream → List ℕ
encode s = encode_records [] (sort_by_type s.records)

-- The test `type_num <= prev` of the loop.
unfoldable pub check_order : Option ℕ → ℕ → Result (Unit {0}) TlvError
check_order none type_num = ok tt
check_order (some prev) type_num =
    if leb type_num prev then err (type_not_sorted prev type_num) else ok tt

-- The error when `offset + length > data.len()`, with the `usize` sum of 64 bits; `data_len` is
-- `data.len()`, `rest` is `data[offset..]`. A sum that wraps around is below the offset, so the slice
-- behind the test panics. Where the value is in the data, the sum is at most its length, and it does
-- not wrap around, since no slice has more than 2 ^ 63 bytes.
unfoldable pub past_end : ℕ → ℕ → List ℕ → TlvError
past_end data_len len rest =
    if ltb (data_len - length rest + len) (2 ^ 64) then unexpected_eof else offset_overflow

-- The part of a round behind its two reads: the bound on the length, the value, the order.
unfoldable pub take_value : ℕ → ℕ → Option ℕ → ℕ → ℕ → List ℕ → Result (TlvRecord × List ℕ) TlvError
unfolding check_order past_end
take_value data_len max_value_len last_type type_num len rest = do
  ensure (leb len max_value_len) (value_too_large type_num len)
  ensure (leb len (length rest)) (past_end data_len len rest)
  check_order last_type type_num
  ok (record { type_num = type_num; value = take len rest }, drop len rest)

-- One round of the loop on `data[offset..]`: the record, and the bytes behind it.
unfoldable pub decode_record : ℕ → ℕ → Option ℕ → List ℕ → Result (TlvRecord × List ℕ) TlvError
unfolding take_value
decode_record data_len max_value_len last_type bytes = do
  (type_num, consumed) ← decode_bigsize bytes
  let bytes' = drop consumed bytes
  (len, consumed') ← decode_bigsize bytes'
  take_value data_len max_value_len last_type type_num len (drop consumed' bytes')

-- `while offset < data.len()`; `none` means that the fuel ran out.
pub decode_loop : ℕ → ℕ → ℕ → Option ℕ → TlvStream → List ℕ → Option (Result TlvStream TlvError)
decode_loop fuel data_len max_value_len last_type stream [] = some (ok stream)
decode_loop zero data_len max_value_len last_type stream (b ∷ bs) = none
decode_loop (suc fuel) data_len max_value_len last_type stream (b ∷ bs) =
    elim (decode_record data_len max_value_len last_type (b ∷ bs)) [
      | err e ↦ some (err e)
      | ok (r, rest) ↦
          decode_loop fuel data_len max_value_len (some r.type_num) (push stream r) rest
    ]

-- Each round takes a byte at least, so as many rounds as bytes are enough.
unfoldable pub decode_with_limit : List ℕ → ℕ → Option (Result TlvStream TlvError)
unfolding decode_loop
decode_with_limit bytes max_value_len =
    decode_loop (length bytes) (length bytes) max_value_len none (record { records = [] }) bytes

unfoldable pub decode : List ℕ → Option (Result TlvStream TlvError)
decode bytes = decode_with_limit bytes max_tlv_value_length
