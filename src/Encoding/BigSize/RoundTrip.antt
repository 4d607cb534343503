-- ===== src/Encoding/BigSize/RoundTrip.antt =====
-- `decode_bigsize` and `encode_bigsize` are inverse to one another.
use rust_tap.Common.{ℕ, ◌+◌, ◌^◌, ◌≤◌, ◌<◌, ◌≡◌, ap, sym, ◌∙◌, arith}
use rust_tap.Common.{List, [], ◌∷◌, ◌++◌, append_assoc, ok, leb}
use rust_tap.Common.{
  if◌then◌else◌, length, take, drop, All, drop-append_length, All-take, length-take,
  take-append-drop, length-append, take-append_length,
}
use rust_tap.Common.Bytes.{
  IsByte, to_be_bytes, to_be_bytes-from_be_bytes, from_be_bytes-lt, from_be_bytes,
  length-to_be_bytes,
}
use rust_tap.Common.Bytes.{from_be_bytes-to_be_bytes}
use rust_tap.Encoding.BigSize.{encode_bigsize, decode_word, decode_bigsize, bigsize_len}
use rust_tap.Encoding.BigSize.{IsU64}

-- The bytes that `encode_bigsize` appends.
unfoldable pub encoding : ℕ → List ℕ
encoding val =
    if leb val 0xfc
    then val ∷ []
    else if leb val 0xffff
    then 0xfd ∷ to_be_bytes 2 val
    else if leb val 0xffff_ffff
    then 0xfe ∷ to_be_bytes 4 val
    else 0xff ∷ to_be_bytes 8 val

pub encode_bigsize-encoding :
    (buf : List ℕ) (val : ℕ) → encode_bigsize buf val ≡ buf ++ encoding val
unfolding encode_bigsize encoding
encode_bigsize-encoding buf val = ground (
  arith,
  append_assoc buf (0xfd ∷ []) (to_be_bytes 2 val),
  append_assoc buf (0xfe ∷ []) (to_be_bytes 4 val),
  append_assoc buf (0xff ∷ []) (to_be_bytes 8 val),
)

pub length-encoding : (val : ℕ) → length (encoding val) ≡ bigsize_len val
unfolding encoding bigsize_len
length-encoding val =
    ground (arith, length-to_be_bytes 2 val, length-to_be_bytes 4 val, length-to_be_bytes 8 val)

decode_word-to_be_bytes :
    (width least val b : ℕ) (rest : List ℕ)
    → val < 256 ^ width
    → least ≤ val
    → decode_word width least (b ∷ to_be_bytes width val ++ rest) ≡ ok (val, width + 1)
unfolding decode_word
decode_word-to_be_bytes width least val b rest hv hl =
    ground (arith, length-to_be_bytes width val, length-append (to_be_bytes width val) rest, read)
  where
    read : from_be_bytes (take width (to_be_bytes width val ++ rest)) ≡ val
    read =
        ap (λ n. from_be_bytes (take n (to_be_bytes width val ++ rest)))
          (sym (length-to_be_bytes width val))
        ∙ ap from_be_bytes (take-append_length (to_be_bytes width val) rest)
        ∙ from_be_bytes-to_be_bytes width val hv

pub decode_bigsize-encoding :
    (val : ℕ) (rest : List ℕ)
    → IsU64 val
    → decode_bigsize (encoding val ++ rest) ≡ ok (val, bigsize_len val)
unfolding decode_bigsize encoding bigsize_len
decode_bigsize-encoding val rest h = ground (
  arith,
  decode_word-to_be_bytes 2 0xfd val 0xfd rest,
  decode_word-to_be_bytes 4 0x1_0000 val 0xfe rest,
  decode_word-to_be_bytes 8 0x1_0000_0000 val 0xff rest,
)

pub drop-encoding : (val : ℕ) (rest : List ℕ) → drop (bigsize_len val) (encoding val ++ rest) ≡ rest
drop-encoding val rest =
    ap (λ n. drop n (encoding val ++ rest)) (sym (length-encoding val))
    ∙ drop-append_length (encoding val) rest

-- `decode_bigsize` reads back every `u64` that `encode_bigsize` wrote, whatever follows it, and
-- takes `bigsize_len` bytes.
pub decode_bigsize-encode_bigsize :
    (val : ℕ) (rest : List ℕ)
    → IsU64 val
    → decode_bigsize (encode_bigsize [] val ++ rest) ≡ ok (val, bigsize_len val)
decode_bigsize-encode_bigsize val rest h =
    rw (encode_bigsize-encoding [] val) (decode_bigsize-encoding val rest h)

decode_word_parts :
    (width least b : ℕ) (bs : List ℕ) (val n : ℕ)
    → decode_word width least (b ∷ bs) ≡ ok (val, n)
    → (least ≤ val) × (n ≡ width + 1) × (width ≤ length bs) × (from_be_bytes (take width bs) ≡ val)
unfolding decode_word
decode_word_parts width least b bs val n e = ground arith

word_bytes :
    (width : ℕ) (bs : List ℕ) (val : ℕ)
    → All IsByte bs
    → width ≤ length bs
    → from_be_bytes (take width bs) ≡ val
    → (val < 256 ^ width) × (to_be_bytes width val ++ drop width bs ≡ bs)
word_bytes width bs val h fits e =
    let w : length (take width bs) ≡ width = omega (arith, length-take width bs) in
    let all_bytes : All IsByte (take width bs) = All-take IsByte width bs h in
    (
      rw (w, e) at (from_be_bytes-lt (take width bs) all_bytes),
      rw (rw (w, e) at (to_be_bytes-from_be_bytes (take width bs) all_bytes))
          (take-append-drop width bs),
    )

decode_word_canonical :
    (width least b : ℕ) (bs : List ℕ) (val n : ℕ)
    → All IsByte bs
    → decode_word width least (b ∷ bs) ≡ ok (val, n)
    → (least ≤ val)
      × (val < 256 ^ width)
      × (n ≡ width + 1)
      × (width ≤ length bs)
      × (to_be_bytes width val ++ drop width bs ≡ bs)
decode_word_canonical width least b bs val n h e =
    let (a, c, d, f) = decode_word_parts width least b bs val n e in
    let (lt, eq) = word_bytes width bs val h d f in (a, lt, c, d, eq)

-- What `decode_bigsize` accepts is the one encoding of its value: encoding the value and adding
-- the bytes that were not read gives the input back, the value is a `u64`, and the bytes taken
-- are counted by `bigsize_len` and are there.
pub encode_bigsize-decode_bigsize :
    (bytes : List ℕ) (val n : ℕ)
    → All IsByte bytes
    → decode_bigsize bytes ≡ ok (val, n)
    → (encode_bigsize [] val ++ drop n bytes ≡ bytes)
      × IsU64 val
      × (n ≡ bigsize_len val)
      × (n ≤ length bytes)
unfolding decode_bigsize encoding bigsize_len
encode_bigsize-decode_bigsize [] val n h e = cc
encode_bigsize-decode_bigsize (b ∷ bs) val n h e = rw (encode_bigsize-encoding [] val) (
    ground (
      arith,
      decode_word_canonical 2 0xfd b bs val n h.1,
      decode_word_canonical 4 0x1_0000 b bs val n h.1,
      decode_word_canonical 8 0x1_0000_0000 b bs val n h.1,
    ))
