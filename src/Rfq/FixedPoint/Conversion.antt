-- ===== src/Rfq/FixedPoint/Conversion.antt =====
-- What the two conversions compute, how much they may lose, and that a round trip never gains.
use rust_tap.Common.{ℕ, zero, suc, ◌+◌, ◌-◌, ◌*◌, ◌/◌, ◌^◌, max, ◌≤◌, ◌<◌, ◌≡◌, ◌∙◌, sym, ap}
use rust_tap.Common.{arith, ok}
use rust_tap.Rfq.FixedPoint.{FixedPoint, msat_per_btc, default_arithmetic_scale}
use rust_tap.Rfq.FixedPoint.{checked_mul, pow10, try_u64, units_to_milli_satoshi}
use rust_tap.Rfq.FixedPoint.{milli_satoshi_to_units}
use native.Mathlib.Nat.{add-zero, mul-le-mul_right, mul-lt-mul_of_pos_right, le_of_mul-le-mul_right}
use native.Mathlib.Nat.{
  lt_of_mul-lt-mul_right, pow-suc, mul-div-mul_right, div-mul-le_self, lt-div-mul-add, one-le-pow,
  pow-le-pow_right, add-suc, div-div-eq-div-mul,
}

abbrev working_scale : FixedPoint → ℕ
working_scale rate = max default_arithmetic_scale rate.scale

units_to_milli_satoshi_lem :
    (units : ℕ) (rate : FixedPoint) (msat : ℕ)
    → units_to_milli_satoshi units rate ≡ ok msat
    → (0 < rate.coefficient)
      × (msat
          ≡ units
            * 10 ^ working_scale rate
            * 10 ^ working_scale rate
            / (rate.coefficient * 10 ^ (working_scale rate - rate.scale))
            * msat_per_btc
            / 10 ^ working_scale rate)
unfolding units_to_milli_satoshi checked_mul pow10 try_u64
units_to_milli_satoshi_lem units rate msat e = ground arith

-- Truncating `b = u * t / c` and then `m = b * w / t` loses less than 2, if `w` is at most `t`.
module _ (u t c w b m : ℕ) (pos_t : 0 < t) (pos_w : 0 < w) (pos_c : 0 < c) where
  two_floors_upper : b * c ≤ u * t → m * t ≤ b * w → m * c ≤ u * w
  two_floors_upper h k =
      let e₁ : m * t * c ≤ b * w * c = mul-le-mul_right c k in
      let e₂ : b * c * w ≤ u * t * w = mul-le-mul_right w h in
      le_of_mul-le-mul_right {k = t} (omega (arith, e₁, e₂)) pos_t

  two_floors_lower : w ≤ t → u * t < b * c + c → b * w < m * t + t → u * w < (m + 2) * c
  two_floors_lower wt h k =
      let e₁ : u * t * w < (b * c + c) * w = mul-lt-mul_of_pos_right h pos_w in
      let e₂ : (b * w + w) * c < (m * t + t + t) * c =
        mul-lt-mul_of_pos_right (omega arith) pos_c in
      lt_of_mul-lt-mul_right t (omega (arith, e₁, e₂))

pow10_split : (a b : ℕ) → 10 ^ (a + b) ≡ 10 ^ a * 10 ^ b
pow10_split a zero = rw add-zero (omega arith)
pow10_split a (suc b) =
    ap (λ n. 10 ^ n) (add-suc a b)
    ∙ omega (
      arith,
      pow-suc 10 (a + b),
      pow10_split a b,
      pow-suc 10 b,
      ap (λ (n : ℕ). 10 ^ a * n) (pow-suc 10 b),
    )

-- The factor that the rate and the dividend share is cancelled.
quotient : (u t d s c : ℕ) → 0 < d → t ≡ d * s → u * t * t / (c * d) ≡ u * s * t / c
quotient u t d s c pos e =
    let product : u * t * t ≡ u * s * t * d = omega (arith, ap (λ (x : ℕ). u * t * x) e) in
    ap (λ x. x / (c * d)) product ∙ mul-div-mul_right (u * s * t) c pos

module _ (rate : FixedPoint) where
  rest_scale : ℕ
  rest_scale = working_scale rate - rate.scale

  working_split : 10 ^ working_scale rate ≡ 10 ^ rest_scale * 10 ^ rate.scale
  unfolding rest_scale
  working_split =
      let e : working_scale rate ≡ rest_scale + rate.scale = omega arith in
      ap (λ n. 10 ^ n) e ∙ pow10_split rest_scale rate.scale

  msat_per_btc-le : msat_per_btc ≤ 10 ^ working_scale rate
  msat_per_btc-le =
      pow-le-pow_right {n = 10} (omega arith) {i = 11} {j = working_scale rate} (omega arith)

pow10_pos : (n : ℕ) → 0 < 10 ^ n
pow10_pos n = one-le-pow n 10 (omega arith)

-- What a conversion of units gives never exceeds the exact value
-- `units * msat_per_btc / (coefficient / 10 ^ scale)`, and falls short of it by less than 2 msat.
pub units_to_milli_satoshi_bounds :
    (units : ℕ) (rate : FixedPoint) (msat : ℕ)
    → units_to_milli_satoshi units rate ≡ ok msat
    → (msat * rate.coefficient ≤ units * 10 ^ rate.scale * msat_per_btc)
      × (units * 10 ^ rate.scale * msat_per_btc < (msat + 2) * rate.coefficient)
unfolding rest_scale
units_to_milli_satoshi_bounds units rate msat e =
    let (pos_c, eq) = units_to_milli_satoshi_lem units rate msat e in
    let t = 10 ^ working_scale rate in
    let pos_t = pow10_pos (working_scale rate) in
    let u = units * 10 ^ rate.scale in
    let b = u * t / rate.coefficient in
    let exact : msat ≡ b * msat_per_btc / t =
      eq
      ∙ ap (λ x. x * msat_per_btc / t)
          (quotient units t (10 ^ rest_scale rate) (10 ^ rate.scale) rate.coefficient
            (pow10_pos (rest_scale rate)) (working_split rate)) in
    let whole : msat * t ≤ b * msat_per_btc = rw exact (div-mul-le_self (b * msat_per_btc) t) in
    let part : b * msat_per_btc < msat * t + t =
      rw exact (lt-div-mul-add {a = b * msat_per_btc} pos_t) in
    (
      two_floors_upper u t rate.coefficient msat_per_btc b msat pos_t (omega arith) pos_c
          (div-mul-le_self (u * t) rate.coefficient) whole,
      two_floors_lower u t rate.coefficient msat_per_btc b msat pos_t (omega arith) pos_c
          (msat_per_btc-le rate) (lt-div-mul-add {a = u * t} pos_c) part,
    )

milli_satoshi_to_units_lem :
    (msat : ℕ) (rate : FixedPoint) (units : ℕ)
    → milli_satoshi_to_units msat rate ≡ ok units
    → units
      ≡ msat
        * 10 ^ working_scale rate
        / msat_per_btc
        * rate.coefficient
        / 10 ^ rate.scale
        / 10 ^ (working_scale rate - rate.scale)
        / 10 ^ rate.scale
unfolding milli_satoshi_to_units checked_mul pow10 try_u64
milli_satoshi_to_units_lem msat rate units e = ground arith

-- The three divisions are one.
milli_satoshi_to_units_floor :
    (msat : ℕ) (rate : FixedPoint) (units : ℕ)
    → milli_satoshi_to_units msat rate ≡ ok units
    → units
      ≡ msat
        * 10 ^ working_scale rate
        / msat_per_btc
        * rate.coefficient
        / (10 ^ rate.scale * 10 ^ working_scale rate)
unfolding rest_scale
milli_satoshi_to_units_floor msat rate units e =
    let product = msat * 10 ^ working_scale rate / msat_per_btc * rate.coefficient in
    let s = 10 ^ rate.scale in
    let d = 10 ^ rest_scale rate in
    milli_satoshi_to_units_lem msat rate units e
    ∙ div-div-eq-div-mul (product / s) d s
    ∙ ap (λ x. product / s / x) (sym (working_split rate))
    ∙ div-div-eq-div-mul product s (10 ^ working_scale rate)

-- What a conversion of milli-satoshis gives never exceeds the exact value
-- `msat * (coefficient / 10 ^ scale) / msat_per_btc`.
pub milli_satoshi_to_units_bound :
    (msat : ℕ) (rate : FixedPoint) (units : ℕ)
    → milli_satoshi_to_units msat rate ≡ ok units
    → units * 10 ^ rate.scale * msat_per_btc ≤ msat * rate.coefficient
milli_satoshi_to_units_bound msat rate units e =
    let t = 10 ^ working_scale rate in
    let s = 10 ^ rate.scale in
    let b = msat * t / msat_per_btc in
    let h : units * (s * t) ≤ b * rate.coefficient =
      rw (milli_satoshi_to_units_floor msat rate units e)
        (div-mul-le_self (b * rate.coefficient) (s * t)) in
    let k : b * msat_per_btc ≤ msat * t = div-mul-le_self (msat * t) msat_per_btc in
    let e₁ : units * (s * t) * msat_per_btc ≤ b * rate.coefficient * msat_per_btc =
      mul-le-mul_right msat_per_btc h in
    let e₂ : b * msat_per_btc * rate.coefficient ≤ msat * t * rate.coefficient =
      mul-le-mul_right rate.coefficient k in
    le_of_mul-le-mul_right {k = t} (omega (arith, e₁, e₂)) (pow10_pos (working_scale rate))

-- Converting units to milli-satoshis and back at one rate never gives more units than there were.
pub milli_satoshi_to_units-units_to_milli_satoshi :
    (units : ℕ) (rate : FixedPoint) (msat units' : ℕ)
    → units_to_milli_satoshi units rate ≡ ok msat
    → milli_satoshi_to_units msat rate ≡ ok units'
    → units' ≤ units
milli_satoshi_to_units-units_to_milli_satoshi units rate msat units' e f =
    let (upper, lower) = units_to_milli_satoshi_bounds units rate msat e in
    let back = milli_satoshi_to_units_bound msat rate units' f in
    le_of_mul-le-mul_right {k = 10 ^ rate.scale} (omega (arith, upper, back)) (pow10_pos rate.scale)
