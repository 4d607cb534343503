-- ===== src/Encoding/Tlv/RoundTrip.antt =====
-- `TlvStream::encode` and `TlvStream::decode_with_limit` are inverse to one another.
use rust_tap.Common.{ℕ, zero, suc, ◌≤◌, ◌<◌, ◌≡◌, refl, sym, ap, ◌∙◌, arith}
use rust_tap.Common.{Option, none, some}
use rust_tap.Common.{List, [], ◌∷◌, ◌++◌, append-nil, append_assoc, ok, le→leb}
use rust_tap.Common.{length, take, drop, All, length-append, take-append_length, drop-append_length}
use rust_tap.Encoding.BigSize.{IsU64, decode_bigsize, bigsize_len}
use rust_tap.Encoding.BigSize.RoundTrip.{encoding, encode_bigsize-encoding, length-encoding}
use rust_tap.Encoding.BigSize.RoundTrip.{decode_bigsize-encoding, drop-encoding}
use rust_tap.Encoding.Tlv.{TlvRecord, TlvStream, push, encode_record, encode_records, encode}
use rust_tap.Encoding.Tlv.{check_order, decode_record, decode_loop, decode_with_limit, sort_by_type}
use rust_tap.Encoding.Tlv.Sorting.{IsAscending, HasDistinctTypes, sort_by_type-IsAscending}
use rust_tap.Encoding.Tlv.Sorting.{sort_by_type-All}

-- The bytes of one record, and of a list of records.
unfoldable pub record_encoding : TlvRecord → List ℕ
record_encoding r = encoding r.type_num ++ (encoding (length r.value) ++ r.value)

unfoldable pub records_encoding : List TlvRecord → List ℕ
records_encoding [] = []
records_encoding (r ∷ rs) = record_encoding r ++ records_encoding rs

encode_record-record_encoding :
    (buf : List ℕ) (r : TlvRecord) → encode_record buf r ≡ buf ++ record_encoding r
unfolding encode_record record_encoding
encode_record-record_encoding buf r = simp (encode_bigsize-encoding, append_assoc)

pub encode_records-records_encoding :
    (buf : List ℕ) (rs : List TlvRecord) → encode_records buf rs ≡ buf ++ records_encoding rs
unfolding encode_records records_encoding
encode_records-records_encoding buf [] = sym (append-nil buf)
encode_records-records_encoding buf (r ∷ rs) =
    encode_records-records_encoding (encode_record buf r) rs
    ∙ rw (encode_record-record_encoding buf r) (append_assoc buf (record_encoding r) _)

-- A record that `decode_with_limit` can take: its type is a `u64`, and its value is not too long.
abbrev pub Fits : ℕ → TlvRecord → Type 0
Fits limit r = IsU64 r.type_num × (length r.value ≤ limit)

abbrev pub Follows : Option ℕ → TlvRecord → Type 0
Follows none r = Unit {0}
Follows (some prev) r = prev < r.type_num

check_order-Follows :
    (last : Option ℕ) (r : TlvRecord) → Follows last r → check_order last r.type_num ≡ ok tt
unfolding check_order
check_order-Follows none r h = refl
check_order-Follows (some prev) r h = ground arith

decode_record_steps :
    (total limit : ℕ) (last : Option ℕ) (bytes bytes' rest : List ℕ) (t c n c' : ℕ)
    → decode_bigsize bytes ≡ ok (t, c)
    → drop c bytes ≡ bytes'
    → decode_bigsize bytes' ≡ ok (n, c')
    → drop c' bytes' ≡ rest
    → n ≤ limit
    → n ≤ length rest
    → check_order last t ≡ ok tt
    → decode_record total limit last bytes
      ≡ ok (record { type_num = t; value = take n rest }, drop n rest)
unfolding decode_record
decode_record_steps total limit last bytes bytes' rest t c n c' e₁ e₂ e₃ e₄ hl hr ho =
    rw (e₁, e₂, e₃, e₄, le→leb n limit hl, le→leb n (length rest) hr, ho)

decode_record-record_encoding :
    (total limit : ℕ) (last : Option ℕ) (r : TlvRecord) (rest : List ℕ)
    → IsU64 limit
    → Fits limit r
    → Follows last r
    → decode_record total limit last (record_encoding r ++ rest) ≡ ok (r, rest)
unfolding record_encoding
decode_record-record_encoding total limit last r rest hl hf ho =
    ap (decode_record total limit last) split
    ∙ decode_record_steps total limit last (encoding r.type_num ++ (encoding n ++ tail))
        (encoding n ++ tail) tail r.type_num (bigsize_len r.type_num) n (bigsize_len n)
        (decode_bigsize-encoding r.type_num (encoding n ++ tail) hf.0)
        (drop-encoding r.type_num (encoding n ++ tail))
        (decode_bigsize-encoding n tail (omega (arith, hf.1))) (drop-encoding n tail) hf.1
        (omega (arith, length-append r.value rest)) (check_order-Follows last r ho)
    ∙ rw (take-append_length r.value rest, drop-append_length r.value rest)
  where
    n : ℕ
    n = length r.value

    tail : List ℕ
    tail = r.value ++ rest

    split : record_encoding r ++ rest ≡ encoding r.type_num ++ (encoding n ++ tail)
    split = simp append_assoc

unfoldable pub IsAscendingFrom : Option ℕ → List TlvRecord → Type 0
IsAscendingFrom last [] = Unit {0}
IsAscendingFrom last (r ∷ rs) = Follows last r × IsAscendingFrom (some r.type_num) rs

IsAscending→from :
    (last : Option ℕ) (rs : List TlvRecord)
    → All (Follows last) rs
    → IsAscending rs
    → IsAscendingFrom last rs
unfolding IsAscendingFrom
IsAscending→from last [] h a = tt
IsAscending→from last (r ∷ rs) h a = (h.0, IsAscending→from (some r.type_num) rs a.0 a.1)

record_encoding_longer :
    (r : TlvRecord) (rest : List ℕ) → length rest < length (record_encoding r ++ rest)
unfolding record_encoding bigsize_len
record_encoding_longer r rest = ground (
  arith,
  length-append (record_encoding r) rest,
  length-append (encoding r.type_num) (encoding (length r.value) ++ r.value),
  length-encoding r.type_num,
)

decode_loop_step :
    (fuel total limit : ℕ) (last : Option ℕ) (stream : TlvStream) (bytes : List ℕ) {r : TlvRecord}
    {rest : List ℕ}
    → decode_record total limit last bytes ≡ ok (r, rest)
    → decode_loop (suc fuel) total limit last stream bytes
      ≡ decode_loop fuel total limit (some r.type_num) (push stream r) rest
unfolding decode_loop
decode_loop_step fuel total limit last stream [] e = unfold decode_record decode_bigsize in cc
decode_loop_step fuel total limit last stream (b ∷ bs) e = rw (e, decode_loop)

decode_loop-records_encoding :
    (fuel total limit : ℕ) (last : Option ℕ) (stream : TlvStream) (rs : List TlvRecord)
    → IsU64 limit
    → All (Fits limit) rs
    → IsAscendingFrom last rs
    → length (records_encoding rs) ≤ fuel
    → decode_loop fuel total limit last stream (records_encoding rs)
      ≡ some (ok (record { records = stream.records ++ rs }))
unfolding records_encoding IsAscendingFrom
decode_loop-records_encoding fuel total limit last stream [] hl hf ha hn =
    rw append-nil (unfold decode_loop in refl)
decode_loop-records_encoding zero total limit last stream (r ∷ rs) hl hf ha hn =
    absurd (omega (arith, record_encoding_longer r (records_encoding rs)))
decode_loop-records_encoding (suc fuel) total limit last stream (r ∷ rs) hl hf ha hn =
    decode_loop_step fuel total limit last stream _
      (decode_record-record_encoding total limit last r (records_encoding rs) hl hf.0 ha.0)
    ∙ decode_loop-records_encoding fuel total limit (some r.type_num) (push stream r) rs hl hf.1
        ha.1 (omega (arith, record_encoding_longer r (records_encoding rs)))
    ∙ unfold push in rw append_assoc

All-Follows-none : (rs : List TlvRecord) → All (Follows none) rs
All-Follows-none [] = tt
All-Follows-none (r ∷ rs) = (tt, All-Follows-none rs)

-- Decoding what a stream of distinct types was encoded to gives its records, in ascending order
-- of type: the loop ends, and no record is refused, even or odd, as long as each type is a `u64`
-- and no value is longer than the limit.
pub decode_with_limit-encode :
    (s : TlvStream) (limit : ℕ)
    → IsU64 limit
    → HasDistinctTypes s.records
    → All (Fits limit) s.records
    → decode_with_limit (encode s) limit ≡ some (ok (record { records = sort_by_type s.records }))
unfolding decode_with_limit encode
decode_with_limit-encode s limit hl hd hf =
    rw (encode_records-records_encoding [] (sort_by_type s.records)) (
      decode_loop-records_encoding (length (records_encoding (sort_by_type s.records)))
        (length (records_encoding (sort_by_type s.records))) limit none (record { records = [] })
        (sort_by_type s.records) hl (sort_by_type-All (Fits limit) s.records hf)
        (IsAscending→from none (sort_by_type s.records) (All-Follows-none _)
          (sort_by_type-IsAscending s.records hd))
        (omega arith))
