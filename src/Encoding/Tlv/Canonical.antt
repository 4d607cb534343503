-- ===== src/Encoding/Tlv/Canonical.antt =====
-- What `TlvStream::decode_with_limit` accepts, and that its loop ends.
use rust_tap.Common.{ℕ, zero, suc, ◌≤◌, ◌<◌, ◌≡◌, ◌≢◌, refl, sym, ap, ◌∙◌, arith}
use rust_tap.Common.{
  Option, none, some, ◌⊎◌, inl, inr, List, [], ◌∷◌, ◌++◌, append-nil, append_assoc,
}
use rust_tap.Common.{Result, ok, err, length, take, drop, All, All-drop, length-drop}
use rust_tap.Common.{take-append-drop, length-take, length-append, All-append_right, subst}
use rust_tap.Common.Bytes.{IsByte}
use rust_tap.Encoding.BigSize.{IsU64, decode_bigsize, bigsize_len}
use rust_tap.Encoding.BigSize.RoundTrip.{encoding, encode_bigsize-encoding}
use rust_tap.Encoding.BigSize.RoundTrip.{encode_bigsize-decode_bigsize}
use rust_tap.Encoding.Tlv.{TlvRecord, TlvStream, push, encode}
use rust_tap.Encoding.Tlv.{take_value, decode_record, decode_loop, decode_with_limit}
use rust_tap.Encoding.Tlv.Sorting.{IsAscending, All-lt_trans, sort_by_type_ascending}
use rust_tap.Encoding.Tlv.RoundTrip.{record_encoding, records_encoding, Follows, Fits}
use rust_tap.Encoding.Tlv.RoundTrip.{encode_records-records_encoding, IsAscendingFrom}

Result-cases {ℓ κ} :
    {A : Type ℓ} {E : Type κ} (r : Result A E) → ((a : A) × (r ≡ ok a)) ⊎ ((e : E) × (r ≡ err e))
Result-cases (ok a) = inl (a, refl)
Result-cases (err e) = inr (e, refl)

decode_bigsize_rest :
    (bytes : List ℕ) (val n : ℕ)
    → All IsByte bytes
    → decode_bigsize bytes ≡ ok (val, n)
    → (encoding val ++ drop n bytes ≡ bytes)
      × IsU64 val
      × (length (drop n bytes) < length bytes)
      × All IsByte (drop n bytes)
unfolding bigsize_len
decode_bigsize_rest bytes val n h e =
    let (eq, fits, size, room) = encode_bigsize-decode_bigsize bytes val n h e in
    (
      rw (encode_bigsize-encoding [] val) at eq,
      fits,
      ground (arith, length-drop n bytes),
      All-drop IsByte n bytes h,
    )

-- A record that one round reads: the input is its encoding and the rest, it fits, it follows the
-- last type, and the rest is shorter.
record Reads (limit : ℕ) (last : Option ℕ) (bytes : List ℕ) (r : TlvRecord) (rest : List ℕ)
    : Type 0 where
  whole : record_encoding r ++ rest ≡ bytes
  fits : Fits limit r
  order : Follows last r
  shorter : length rest < length bytes
  all_bytes : All IsByte rest

-- What the two reads and the three tests of a round that returns have found.
Parts : ℕ → Option ℕ → List ℕ → TlvRecord → List ℕ → Type 0
Parts limit last bytes r rest =
    (c c' : ℕ) × (decode_bigsize bytes ≡ ok (r.type_num, c))
    × (decode_bigsize (drop c bytes) ≡ ok (length r.value, c'))
    × (length r.value ≤ limit)
    × Follows last r
    × (r.value ++ rest ≡ drop c' (drop c bytes))

tests_passed :
    (total limit t n : ℕ) (last : Option ℕ) (tail : List ℕ) (r : TlvRecord) (rest : List ℕ)
    → take_value total limit last t n tail ≡ ok (r, rest)
    → (n ≤ limit)
      × (n ≤ length tail)
      × (r.type_num ≡ t)
      × (r.value ≡ take n tail)
      × (rest ≡ drop n tail)
      × Follows last r
unfolding take_value
tests_passed total limit t n none tail r rest e = ground arith
tests_passed total limit t n (some prev) tail r rest e = ground arith

decode_record-Parts :
    (total limit : ℕ) (last : Option ℕ) (bytes : List ℕ) (r : TlvRecord) (rest : List ℕ)
    → decode_record total limit last bytes ≡ ok (r, rest)
    → Parts limit last bytes r rest
unfolding Parts decode_record
decode_record-Parts total limit last bytes r rest e = elim (Result-cases (decode_bigsize bytes)) [
  | inr (x, e₁) ↦ ground (arith, rw e₁ at e)
  | inl ((t, c), e₁) ↦ elim (Result-cases (decode_bigsize (drop c bytes))) [
    | inr (x, e₂) ↦ ground (arith, rw (e₁, e₂) at e)
    | inl ((n, c'), e₂) ↦
        let (small, room, et, ev, er, follows) =
          tests_passed total limit t n last (drop c' (drop c bytes)) r rest (rw (e₁, e₂) at e) in
        let size : length r.value ≡ n =
          rw ev (omega (arith, length-take n (drop c' (drop c bytes)))) in
        (
          c,
          c',
          rw et e₁,
          rw size e₂,
          rw size small,
          follows,
          rw (ev, er) (take-append-drop n (drop c' (drop c bytes))),
        )
  ]
]

decode_record-Reads :
    (total limit : ℕ) (last : Option ℕ) (bytes : List ℕ) (r : TlvRecord) (rest : List ℕ)
    → All IsByte bytes
    → decode_record total limit last bytes ≡ ok (r, rest)
    → Reads limit last bytes r rest
unfolding Parts record_encoding
decode_record-Reads total limit last bytes r rest h e =
    let (c, c', e₁, e₂, small, follows, e₃) = decode_record-Parts total limit last bytes r rest e in
    let (eq₁, fits₁, lt₁, h₁) = decode_bigsize_rest bytes r.type_num c h e₁ in
    let (eq₂, fits₂, lt₂, h₂) = decode_bigsize_rest (drop c bytes) (length r.value) c' h₁ e₂ in
    record {
      whole = simp (append_assoc, e₃, eq₂, eq₁);
      fits = (fits₁, small);
      order = follows;
      shorter = omega (arith, lt₁, lt₂, ap length e₃, length-append r.value rest);
      all_bytes = All-append_right IsByte r.value rest (subst (All IsByte) (sym e₃) h₂);
    }

-- What the rest of the loop adds to `stream`: records that fit, in ascending order, whose
-- encodings make up the bytes.
record Accepts (limit : ℕ) (last : Option ℕ) (stream s : TlvStream) (bytes : List ℕ) : Type 0 where
  added : List TlvRecord
  result : s ≡ record { records = stream.records ++ added }
  whole : records_encoding added ≡ bytes
  order : IsAscendingFrom last added
  fits : All (Fits limit) added

decode_loop-Accepts :
    (fuel total limit : ℕ) (last : Option ℕ) (stream s : TlvStream) (bytes : List ℕ)
    → All IsByte bytes
    → decode_loop fuel total limit last stream bytes ≡ some (ok s)
    → Accepts limit last stream s bytes
unfolding decode_loop push records_encoding IsAscendingFrom
decode_loop-Accepts fuel total limit last stream s [] h e = record {
  added = [];
  result = rw append-nil (cc);
  whole = refl;
  order = tt;
  fits = tt;
}
decode_loop-Accepts zero total limit last stream s (b ∷ bs) h e = cc
decode_loop-Accepts (suc fuel) total limit last stream s (b ∷ bs) h e =
    elim (Result-cases (decode_record total limit last (b ∷ bs))) [
      | inr (x, e₁) ↦ absurd (ground (arith, rw (e₁, decode_loop) at e))
      | inl ((r, rest), e₁) ↦
          let reads = decode_record-Reads total limit last (b ∷ bs) r rest h e₁ in
          let later =
            decode_loop-Accepts fuel total limit (some r.type_num) (push stream r) s rest
              reads.all_bytes (rw (e₁, decode_loop) at e) in
          record {
            added = r ∷ later.added;
            result = later.result ∙ rw append_assoc;
            whole = rw later.whole reads.whole;
            order = (reads.order, later.order);
            fits = (reads.fits, later.fits);
          }
    ]

from-All :
    (t : ℕ) (rs : List TlvRecord)
    → IsAscendingFrom (some t) rs
    → All (λ x. t < x.type_num) rs × IsAscending rs
unfolding IsAscendingFrom
from-All t [] h = (tt, tt)
from-All t (r ∷ rs) h =
    let (above, sorted) = from-All r.type_num rs h.1 in
    ((h.0, All-lt_trans t r.type_num rs h.0 above), (above, sorted))

from→IsAscending : (rs : List TlvRecord) → IsAscendingFrom none rs → IsAscending rs
unfolding IsAscendingFrom
from→IsAscending [] h = tt
from→IsAscending (r ∷ rs) h = from-All r.type_num rs h.1

-- What `decode_with_limit` accepts, over any bytes: the types of the stream strictly ascend, each
-- is a `u64`, no value is longer than the limit, and encoding the stream gives the bytes back.
pub encode-decode_with_limit :
    (bytes : List ℕ) (limit : ℕ) (s : TlvStream)
    → All IsByte bytes
    → decode_with_limit bytes limit ≡ some (ok s)
    → (encode s ≡ bytes) × IsAscending s.records × All (Fits limit) s.records
unfolding decode_with_limit encode
encode-decode_with_limit bytes limit s h e =
    let a =
      decode_loop-Accepts (length bytes) (length bytes) limit none (record { records = [] }) s bytes
        h e in
    let eq : s.records ≡ a.added = ap (λ (t : TlvStream). t.records) a.result in
    let up = from→IsAscending a.added a.order in
    (
      rw (eq, sort_by_type_ascending a.added up, encode_records-records_encoding [] a.added)
          a.whole,
      subst IsAscending (sym eq) up,
      subst (All (Fits limit)) (sym eq) a.fits,
    )

pub decode_loop-ne-none :
    (fuel total limit : ℕ) (last : Option ℕ) (stream : TlvStream) (bytes : List ℕ)
    → All IsByte bytes
    → length bytes ≤ fuel
    → decode_loop fuel total limit last stream bytes ≢ none
unfolding decode_loop
decode_loop-ne-none fuel total limit last stream [] h hn = λ e. cc
decode_loop-ne-none zero total limit last stream (b ∷ bs) h hn = absurd (omega arith)
decode_loop-ne-none (suc fuel) total limit last stream (b ∷ bs) h hn =
    elim (Result-cases (decode_record total limit last (b ∷ bs))) [
      | inr (x, e₁) ↦ rw (e₁, decode_loop) (λ e. cc)
      | inl ((r, rest), e₁) ↦
          let reads = decode_record-Reads total limit last (b ∷ bs) r rest h e₁ in
          rw (e₁, decode_loop)
            (decode_loop-ne-none fuel total limit (some r.type_num) (push stream r) rest
              reads.all_bytes (omega (arith, reads.shorter)))
    ]
