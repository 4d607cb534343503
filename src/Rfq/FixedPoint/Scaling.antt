-- ===== src/Rfq/FixedPoint/Scaling.antt =====
-- Changes of scale.
use rust_tap.Common.{ℕ, ◌-◌, ◌^◌, ◌≤◌, ◌<◌, ◌≡◌, arith}
use rust_tap.Common.{ok}
use rust_tap.Rfq.FixedPoint.{FixedPoint, checked_mul, pow10, try_u64}
use rust_tap.Rfq.FixedPoint.{scale_to, from_scaled_value, to_u64_floor}
use native.Mathlib.Nat.{mul-div_cancel, one-le-pow}

-- Raising the scale is exact: lowering it again gives the number back.
pub scale_to-scale_to :
    (f g : FixedPoint) (scale : ℕ)
    → f.scale ≤ scale
    → scale_to f scale ≡ ok g
    → scale_to g f.scale ≡ ok f
unfolding scale_to pow10 checked_mul
scale_to-scale_to f g scale le e = ground (
  arith,
  mul-div_cancel f.coefficient {n = 10 ^ (scale - f.scale)}
      (one-le-pow (scale - f.scale) 10 (omega arith)),
)

-- The integer that a fixed-point number was made from, at any scale that fits, comes back.
pub to_u64_floor-from_scaled_value :
    (value scale : ℕ) (f : FixedPoint)
    → value < 2 ^ 64
    → from_scaled_value value scale ≡ ok f
    → to_u64_floor f ≡ ok value
unfolding from_scaled_value to_u64_floor pow10 checked_mul try_u64
to_u64_floor-from_scaled_value value scale f h e =
    ground (arith, mul-div_cancel value {n = 10 ^ scale} (one-le-pow scale 10 (omega arith)))
