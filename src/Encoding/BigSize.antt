-- ===== src/Encoding/BigSize.antt =====
-- tap-primitives/src/encoding/bigsize.rs, and the error type of tlv.rs that it returns.
-- A byte slice is a list of numbers below 256, a `u64` a number below 2 ^ 64.
pub mod RoundTrip
mod Examples
use rust_tap.Common.{ℕ, zero, suc, ◌+◌, ◌-◌, ◌^◌, ◌<◌, ◌%◌, String, List, [], ◌∷◌, ◌++◌}
use rust_tap.Common.{Result, ok, err, ltb, leb, ◌==◌, if◌then◌else◌, length, take, drop}
use rust_tap.Common.Bytes.{to_be_bytes, from_be_bytes}

-- `decoding_error` carries the two lengths that the source formats into its message.
-- `offset_overflow` is no error of the source: it stands for the panic that an overflow of
-- `offset + length` leads to, at the addition in a debug build and at the slice in a release build.
pub data TlvError : Type 0 where
  unexpected_eof : TlvError
  non_canonical_big_size : TlvError
  type_not_sorted : ℕ → ℕ → TlvError
  duplicate_type : ℕ → TlvError
  unknown_required_type : ℕ → TlvError
  value_too_large : ℕ → ℕ → TlvError
  decoding_error : ℕ → ℕ → TlvError
  offset_overflow : TlvError

abbrev pub IsU64 : ℕ → Type 0
IsU64 v = v < 2 ^ 64

-- `buf` is returned with the encoding behind it. The arms `val as u16` and `val as u32` keep the
-- value, since the match has bounded it.
unfoldable pub encode_bigsize : List ℕ → ℕ → List ℕ
encode_bigsize buf val =
    if leb val 0xfc
    then buf ++ (val % 2 ^ 8 ∷ [])
    else if leb val 0xffff
    then (buf ++ (0xfd ∷ [])) ++ to_be_bytes 2 (val % 2 ^ 16)
    else if leb val 0xffff_ffff
    then (buf ++ (0xfe ∷ [])) ++ to_be_bytes 4 (val % 2 ^ 32)
    else (buf ++ (0xff ∷ [])) ++ to_be_bytes 8 val

-- One of the three arms that read a big-endian word of `width` bytes behind the first byte, and
-- refuse a value that a shorter form can hold.
unfoldable pub decode_word : ℕ → ℕ → List ℕ → Result (ℕ × ℕ) TlvError
decode_word width least data_bytes =
    if ltb (length data_bytes) (width + 1)
    then err unexpected_eof
    else let val = from_be_bytes (take width (drop 1 data_bytes)) in
      if ltb val least then err non_canonical_big_size else ok (val, width + 1)

-- The value and the number of bytes that it took.
unfoldable pub decode_bigsize : List ℕ → Result (ℕ × ℕ) TlvError
unfolding decode_word
decode_bigsize [] = err unexpected_eof
decode_bigsize (b ∷ bs) =
    if leb b 0xfc
    then ok (b, 1)
    else if b == 0xfd
    then decode_word 2 0xfd (b ∷ bs)
    else if b == 0xfe
    then decode_word 4 0x1_0000 (b ∷ bs)
    else decode_word 8 0x1_0000_0000 (b ∷ bs)

unfoldable pub bigsize_len : ℕ → ℕ
bigsize_len val =
    if leb val 0xfc then 1 else if leb val 0xffff then 3 else if leb val 0xffff_ffff then 5 else 9
