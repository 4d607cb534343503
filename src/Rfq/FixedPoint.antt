-- ===== src/Rfq/FixedPoint.antt =====
-- tap-ldk/src/rfq/math.rs: fixed-point numbers and the conversions of units and milli-satoshis.
-- A `u128` is a number below 2 ^ 128; every multiplication and power is checked against that.
pub mod Scaling
pub mod Wire
pub mod Conversion
mod Examples
use rust_tap.Common.{ℕ, zero, suc, ◌+◌, ◌-◌, ◌*◌, ◌/◌, ◌%◌, ◌^◌, max, Bool, true, false}
use rust_tap.Common.{List, [], ◌∷◌, ◌++◌, Result, ok, err, ◌>>=◌, ltb, ◌==◌, if◌then◌else◌, length}
use rust_tap.Common.{replicate}
use rust_tap.Common.Bytes.{to_be_bytes, from_be_bytes}

abbrev pub msat_per_btc : ℕ
msat_per_btc = 100_000_000_000

abbrev pub default_arithmetic_scale : ℕ
default_arithmetic_scale = 11

abbrev pub max_coefficient_bytes : ℕ
max_coefficient_bytes = 16

pub data FixedPointError : Type 0 where
  overflow : FixedPointError
  division_by_zero : FixedPointError
  coefficient_too_large : ℕ → FixedPointError
  missing_scale : FixedPointError

pub record FixedPoint : Type 0 where
  pub coefficient : ℕ
  pub scale : ℕ

-- `checked_mul(..).ok_or(Overflow)` on `u128`.
unfoldable pub checked_mul : ℕ → ℕ → Result ℕ FixedPointError
checked_mul a b = if ltb (a * b) (2 ^ 128) then ok (a * b) else err overflow

unfoldable pub pow10 : ℕ → Result ℕ FixedPointError
pow10 exp = if ltb (10 ^ exp) (2 ^ 128) then ok (10 ^ exp) else err overflow

-- `u64::try_from(v)`
unfoldable pub try_u64 : ℕ → Result ℕ FixedPointError
try_u64 v = if ltb v (2 ^ 64) then ok v else err overflow

unfoldable pub from_scaled_value : ℕ → ℕ → Result FixedPoint FixedPointError
from_scaled_value value scale = do
  ten ← pow10 scale
  coefficient ← checked_mul value ten
  ok (record { coefficient = coefficient; scale = scale })

unfoldable pub from_integer : ℕ → FixedPoint
from_integer value = record { coefficient = value; scale = 0 }

unfoldable pub is_zero : FixedPoint → Bool
is_zero f = f.coefficient == 0

unfoldable pub to_u64_floor : FixedPoint → Result ℕ FixedPointError
to_u64_floor f = do divisor ← pow10 f.scale; try_u64 (f.coefficient / divisor)

-- The coefficient at the new scale.
unfoldable pub scaled : FixedPoint → ℕ → Result ℕ FixedPointError
scaled f new_scale =
    if new_scale == f.scale
    then ok f.coefficient
    else if ltb f.scale new_scale
    then (do ten ← pow10 (new_scale - f.scale); checked_mul f.coefficient ten)
    else (do ten ← pow10 (f.scale - new_scale); ok (f.coefficient / ten))

unfoldable pub scale_to : FixedPoint → ℕ → Result FixedPoint FixedPointError
unfolding scaled
scale_to f new_scale = do
  coefficient ← scaled f new_scale
  ok (record { coefficient = coefficient; scale = new_scale })

-- `&be[pos..]` from the first byte that is not 0; nothing if there is none.
unfoldable pub trim_zeros : List ℕ → List ℕ
trim_zeros [] = []
trim_zeros (b ∷ bs) = elim (b == 0) [ true ↦ trim_zeros bs | false ↦ b ∷ bs ]

unfoldable pub encode_tlv : FixedPoint → List ℕ
unfolding trim_zeros
encode_tlv f = f.scale ∷ trim_zeros (to_be_bytes 16 f.coefficient)

unfoldable pub decode_tlv : List ℕ → Result FixedPoint FixedPointError
decode_tlv [] = err missing_scale
decode_tlv (scale ∷ coeff_bytes) =
    if ltb max_coefficient_bytes (length coeff_bytes)
    then err (coefficient_too_large (length coeff_bytes))
    else ok (record {
      coefficient = from_be_bytes (replicate (16 - length coeff_bytes) 0 ++ coeff_bytes);
      scale = scale;
    })

unfoldable pub units_to_milli_satoshi : ℕ → FixedPoint → Result ℕ FixedPointError
units_to_milli_satoshi asset_units rate = if rate.coefficient == 0 then err division_by_zero else do
  let s = max default_arithmetic_scale rate.scale
  ten_s ← pow10 s
  units_scaled ← checked_mul asset_units ten_s
  ten_rest ← pow10 (s - rate.scale)
  rate_scaled ← checked_mul rate.coefficient ten_rest
  dividend ← checked_mul units_scaled ten_s
  let amt_btc = dividend / rate_scaled
  amt_msat ← checked_mul amt_btc msat_per_btc
  try_u64 (amt_msat / ten_s)

unfoldable pub milli_satoshi_to_units : ℕ → FixedPoint → Result ℕ FixedPointError
milli_satoshi_to_units milli_sat rate = do
  let s = max default_arithmetic_scale rate.scale
  ten_s ← pow10 s
  msat_scaled ← checked_mul milli_sat ten_s
  let amt_btc = msat_scaled / msat_per_btc
  product ← checked_mul amt_btc rate.coefficient
  ten_scale ← pow10 rate.scale
  let amt_units = product / ten_scale
  ten_rest ← pow10 (s - rate.scale)
  let units_at_rate_scale = amt_units / ten_rest
  try_u64 (units_at_rate_scale / ten_scale)
