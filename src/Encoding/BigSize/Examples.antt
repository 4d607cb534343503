-- ===== src/Encoding/BigSize/Examples.antt =====
-- Tests of bigsize.rs, and its theorems at concrete inputs.
use rust_tap.Common.{◌≤◌, ◌≡◌, refl, arith, [], ◌∷◌, ◌++◌, ok, err}
use rust_tap.Common.Bytes.{to_be_bytes, from_be_bytes}
use rust_tap.Encoding.BigSize.{IsU64, encode_bigsize, decode_bigsize, bigsize_len}
use rust_tap.Encoding.BigSize.{unexpected_eof, non_canonical_big_size}
use rust_tap.Encoding.BigSize.RoundTrip.{decode_bigsize-encode_bigsize}
use rust_tap.Encoding.BigSize.RoundTrip.{encode_bigsize-decode_bigsize}

encode_253 : encode_bigsize (7 ∷ []) 253 ≡ 7 ∷ 0xfd ∷ 0x00 ∷ 0xfd ∷ []
unfolding encode_bigsize to_be_bytes
encode_253 = refl

encode_2_32 : encode_bigsize [] 0x1_0000_0000 ≡ 0xff ∷ 0 ∷ 0 ∷ 0 ∷ 1 ∷ 0 ∷ 0 ∷ 0 ∷ 0 ∷ []
unfolding encode_bigsize to_be_bytes
encode_2_32 = refl

decode_253 : decode_bigsize (0xfd ∷ 0x00 ∷ 0xfd ∷ 9 ∷ []) ≡ ok (253, 3)
unfolding decode_bigsize from_be_bytes
decode_253 = refl

decode_padded : decode_bigsize (0xfd ∷ 0x00 ∷ 0xfc ∷ []) ≡ err non_canonical_big_size
unfolding decode_bigsize from_be_bytes
decode_padded = refl

decode_cut : decode_bigsize (0xfe ∷ 1 ∷ 2 ∷ 3 ∷ []) ≡ err unexpected_eof
unfolding decode_bigsize from_be_bytes
decode_cut = refl

decode_bigsize-encode_bigsize_example :
    decode_bigsize (encode_bigsize [] 70000 ++ (5 ∷ [])) ≡ ok (70000, bigsize_len 70000)
decode_bigsize-encode_bigsize_example = decode_bigsize-encode_bigsize 70000 (5 ∷ []) (omega arith)

encode_bigsize-decode_bigsize_example :
    (encode_bigsize [] 253 ++ (9 ∷ []) ≡ 0xfd ∷ 0x00 ∷ 0xfd ∷ 9 ∷ [])
    × IsU64 253
    × (3 ≡ bigsize_len 253)
    × (3 ≤ 4)
encode_bigsize-decode_bigsize_example =
    encode_bigsize-decode_bigsize (0xfd ∷ 0x00 ∷ 0xfd ∷ 9 ∷ []) 253 3 (omega arith) decode_253
