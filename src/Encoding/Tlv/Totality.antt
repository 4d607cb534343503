-- ===== src/Encoding/Tlv/Totality.antt =====
-- `TlvStream::decode_with_limit` returns.
use rust_tap.Common.{ℕ, zero, suc, ◌+◌, ◌-◌, ◌^◌, ◌<◌, ◌≡◌, ◌≢◌, arith, true, false, Bool}
use rust_tap.Common.{Option, none, some, List, [], ◌∷◌, ◌>>=◌, ◌>>◌, ensure, inl, inr, Bool-cases}
use rust_tap.Common.{Result, ok, err, ltb, leb, leb→le, lt→ltb, length, All}
use rust_tap.Common.{Result-cases, subst, drop}
use rust_tap.Common.Bytes.{IsByte}
use rust_tap.Encoding.BigSize.{TlvError, offset_overflow}
unfoldable use rust_tap.Encoding.BigSize.{decode_bigsize, decode_word}
use rust_tap.Encoding.Tlv.{TlvStream, push, decode_loop}
unfoldable use rust_tap.Encoding.Tlv.{
  check_order, past_end, take_value, decode_record, decode_with_limit,
}
use rust_tap.Encoding.Tlv.Canonical.{decode_loop-ne-none}

-- A result or an error of the source.
abbrev Returns {ℓ} : {A : Type ℓ} → Result A TlvError → Type 0
Returns (ok a) = Unit {0}
Returns (err e) = e ≢ offset_overflow

bind-Returns {ℓ κ} :
    {A : Type ℓ} {B : Type κ} (r : Result A TlvError) (k : A → Result B TlvError)
    → Returns r
    → ((a : A) → Returns (k a))
    → Returns (r >>= k)
bind-Returns (ok a) k h later = later a
bind-Returns (err e) k h later = h

then-Returns {ℓ} :
    {B : Type ℓ} (r : Result (Unit {0}) TlvError) (k : Result B TlvError)
    → Returns r
    → Returns k
    → Returns (r >> k)
then-Returns (ok a) k h later = later
then-Returns (err e) k h later = h

ensure-Returns : (c : Bool) (e : TlvError) → e ≢ offset_overflow → Returns (ensure c e)
ensure-Returns true e h = tt
ensure-Returns false e h = h

decode_word-Returns : (width least : ℕ) (bytes : List ℕ) → Returns (decode_word width least bytes)
unfolding decode_word
decode_word-Returns width least bytes = ground arith

decode_bigsize-Returns : (bytes : List ℕ) → Returns (decode_bigsize bytes)
unfolding decode_bigsize
decode_bigsize-Returns [] = λ e. cc e
decode_bigsize-Returns (b ∷ bs) = ground (arith)

check_order-Returns : (last : Option ℕ) (t : ℕ) → Returns (check_order last t)
unfolding check_order
check_order-Returns none t = tt
check_order-Returns (some prev) t = elim (Bool-cases (leb t prev)) [
  | inl low ↦ rw low (λ e. cc e)
  | inr high ↦ rw high tt
]

past_end-ne-offset_overflow :
    (total limit n : ℕ) (rest : List ℕ)
    → limit + total < 2 ^ 64
    → leb n limit ≡ true
    → past_end total n rest ≢ offset_overflow
unfolding past_end
past_end-ne-offset_overflow total limit n rest small fits =
    let low = leb→le n limit fits in
    let below : ltb (total - length rest + n) (2 ^ 64) ≡ true =
      lt→ltb (total - length rest + n) (2 ^ 64) (omega (arith, low, small)) in
    rw below (λ e. cc e)

module _ (total limit : ℕ) (small : limit + total < 2 ^ 64) where
  take_value-Returns :
      (last : Option ℕ) (t n : ℕ) (rest : List ℕ) → Returns (take_value total limit last t n rest)
  unfolding take_value
  take_value-Returns last t n rest = elim (Bool-cases (leb n limit)) [
    | inr long ↦ rw long (λ e. cc e)
    | inl fits ↦ rw fits (
        then-Returns (ensure (leb n (length rest)) (past_end total n rest)) _
          (ensure-Returns (leb n (length rest)) (past_end total n rest)
            (past_end-ne-offset_overflow total limit n rest small fits))
          (then-Returns (check_order last t) _ (check_order-Returns last t) tt))
  ]

  decode_record-Returns :
      (last : Option ℕ) (bytes : List ℕ) → Returns (decode_record total limit last bytes)
  unfolding decode_record
  decode_record-Returns last bytes =
      bind-Returns (decode_bigsize bytes) _ (decode_bigsize-Returns bytes) (λ (t, c).
        bind-Returns (decode_bigsize (drop c bytes)) _ (decode_bigsize-Returns (drop c bytes))
          (λ (n, c'). take_value-Returns last t n (drop c' (drop c bytes))))

  decode_loop-ne-offset_overflow :
      (fuel : ℕ) (last : Option ℕ) (stream : TlvStream) (bytes : List ℕ)
      → decode_loop fuel total limit last stream bytes ≢ some (err offset_overflow)
  unfolding decode_loop
  decode_loop-ne-offset_overflow fuel last stream [] = λ e. cc e
  decode_loop-ne-offset_overflow zero last stream (b ∷ bs) = λ e. cc e
  decode_loop-ne-offset_overflow (suc fuel) last stream (b ∷ bs) =
      elim (Result-cases (decode_record total limit last (b ∷ bs))) [
        | inr (x, e₁) ↦
            let known : x ≢ offset_overflow =
              subst Returns e₁ (decode_record-Returns last (b ∷ bs)) in
            rw (e₁, decode_loop) (λ e. known (cc e))
        | inl ((r, rest), e₁) ↦
            rw (e₁, decode_loop)
              (decode_loop-ne-offset_overflow fuel (some r.type_num) (push stream r) rest)
      ]

-- `decode_with_limit` returns on every byte string, with a stream or an error of the source: its loop
-- ends, and no sum of an offset and a length overflows. The limit and the number of bytes are less
-- than 2 ^ 64 together.
pub decode_with_limit-ne-none :
    (bytes : List ℕ) (limit : ℕ)
    → All IsByte bytes
    → limit + length bytes < 2 ^ 64
    → (decode_with_limit bytes limit ≢ none)
      × (decode_with_limit bytes limit ≢ some (err offset_overflow))
unfolding decode_with_limit
decode_with_limit-ne-none bytes limit h small = (
  decode_loop-ne-none (length bytes) (length bytes) limit none (record { records = [] }) bytes h
      (omega arith),
  decode_loop-ne-offset_overflow (length bytes) limit small (length bytes) none
      (record { records = [] }) bytes,
)
