-- ===== src/Rfq/FixedPoint/Examples.antt =====
-- Tests of rfq/math.rs, and its theorems at concrete inputs.
use rust_tap.Common.{◌+◌, ◌*◌, ◌^◌, ◌≤◌, ◌<◌, ◌≡◌, refl, arith, [], ◌∷◌, ok, err, length}
use rust_tap.Common.Bytes.{to_be_bytes, from_be_bytes}
use rust_tap.Rfq.FixedPoint.{FixedPoint, msat_per_btc, overflow, division_by_zero}
use rust_tap.Rfq.FixedPoint.{checked_mul, pow10, try_u64, from_scaled_value, to_u64_floor, scale_to}
use rust_tap.Rfq.FixedPoint.{encode_tlv, decode_tlv, units_to_milli_satoshi, milli_satoshi_to_units}
use rust_tap.Rfq.FixedPoint.Scaling.{scale_to-scale_to, to_u64_floor-from_scaled_value}
use rust_tap.Rfq.FixedPoint.Wire.{decode_tlv-encode_tlv, encode_tlv-decode_tlv}
use rust_tap.Rfq.FixedPoint.Conversion.{units_to_milli_satoshi_bounds, milli_satoshi_to_units_bound}
use rust_tap.Rfq.FixedPoint.Conversion.{milli_satoshi_to_units-units_to_milli_satoshi}

-- 50000.25 units to a bitcoin.
abbrev rate : FixedPoint
rate = record { coefficient = 5_000_025; scale = 2 }

units_run : units_to_milli_satoshi 3 rate ≡ ok 5_999_970
unfolding units_to_milli_satoshi checked_mul pow10 try_u64
units_run = refl

back_run : milli_satoshi_to_units 5_999_970 rate ≡ ok 2
unfolding milli_satoshi_to_units checked_mul pow10 try_u64
back_run = refl

zero_rate : units_to_milli_satoshi 3 (record { coefficient = 0; scale = 2 }) ≡ err division_by_zero
unfolding units_to_milli_satoshi
zero_rate = refl

too_wide : units_to_milli_satoshi (2 ^ 63) (record { coefficient = 1; scale = 18 }) ≡ err overflow
unfolding units_to_milli_satoshi checked_mul pow10
too_wide = refl

scale_up : scale_to rate 5 ≡ ok (record { coefficient = 5_000_025_000; scale = 5 })
unfolding scale_to checked_mul pow10
scale_up = refl

from_42 : from_scaled_value 42 6 ≡ ok (record { coefficient = 42_000_000; scale = 6 })
unfolding from_scaled_value checked_mul pow10
from_42 = refl

encode_run : encode_tlv rate ≡ 2 ∷ 0x4c ∷ 0x4b ∷ 0x59 ∷ []
unfolding encode_tlv to_be_bytes
encode_run = refl

decode_run : decode_tlv (2 ∷ 0 ∷ 0x4c ∷ 0x4b ∷ 0x59 ∷ []) ≡ ok rate
unfolding decode_tlv from_be_bytes
decode_run = refl

units_to_milli_satoshi_bounds_example :
    (5_999_970 * 5_000_025 ≤ 3 * 10 ^ 2 * msat_per_btc)
    × (3 * 10 ^ 2 * msat_per_btc < (5_999_970 + 2) * 5_000_025)
units_to_milli_satoshi_bounds_example = units_to_milli_satoshi_bounds 3 rate 5_999_970 units_run

milli_satoshi_to_units_bound_run : 2 * 10 ^ 2 * msat_per_btc ≤ 5_999_970 * 5_000_025
milli_satoshi_to_units_bound_run = milli_satoshi_to_units_bound 5_999_970 rate 2 back_run

milli_satoshi_to_units-units_to_milli_satoshi_example : 2 ≤ 3
milli_satoshi_to_units-units_to_milli_satoshi_example =
    milli_satoshi_to_units-units_to_milli_satoshi 3 rate 5_999_970 2 units_run back_run

scale_to-scale_to_run : scale_to (record { coefficient = 5_000_025_000; scale = 5 }) 2 ≡ ok rate
scale_to-scale_to_run =
    scale_to-scale_to rate (record { coefficient = 5_000_025_000; scale = 5 }) 5 (omega arith)
      scale_up

to_u64_floor-from_scaled_value_run :
    to_u64_floor (record { coefficient = 42_000_000; scale = 6 }) ≡ ok 42
to_u64_floor-from_scaled_value_run =
    to_u64_floor-from_scaled_value 42 6 (record { coefficient = 42_000_000; scale = 6 })
      (omega arith) from_42

decode_tlv-encode_tlv_example : decode_tlv (encode_tlv rate) ≡ ok rate
decode_tlv-encode_tlv_example = decode_tlv-encode_tlv rate (omega arith)

encode_tlv-decode_tlv_run :
    (length (encode_tlv rate) ≤ 5) × (decode_tlv (encode_tlv rate) ≡ ok rate)
encode_tlv-decode_tlv_run =
    encode_tlv-decode_tlv (2 ∷ 0 ∷ 0x4c ∷ 0x4b ∷ 0x59 ∷ []) rate (omega arith) decode_run
