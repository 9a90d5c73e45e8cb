-- ===== src/Liquidity/RateModel/Line.antt =====
-- `get_rate` computed: on a rising and on a falling segment of the curve.
use native.Mathlib.Nat.{mul-le-mul, div-le_self, mul-le-mul_left, le_trans, div-mul-le_self}
use fluid_solana_programs.Base.{ℕ, ◌+◌, ◌-◌, ◌*◌, ◌/◌, ◌^◌, ◌≤◌, ◌<◌, ◌≡◌, arith}
use fluid_solana_programs.Base.Result.{ok}
use fluid_solana_programs.Math.Words.{i128_max, u128_max}
use fluid_solana_programs.Math.Exact.{
  cast_to_signed-le, cast_to_unsigned-le, safe_sub-le, sub_rising, sub_falling, mul_pos, mul_minus,
  div_pos, div_minus, sub_minus, add_minus, sub_any, add_difference,
}
use fluid_solana_programs.Liquidity.Constants.{twelve_decimals}
use fluid_solana_programs.Liquidity.RateModel.{get_rate}

-- The slope with twelve decimals, rounded down.
abbrev pub slope : ℕ → ℕ → ℕ
slope rise run = rise * twelve_decimals / run

-- The ranges in which the model calls `get_rate`.
abbrev pub InRange : ℕ → ℕ → ℕ → ℕ → ℕ → Type 0
InRange y1 y2 x1 x2 u =
    (y1 ≤ 65535) × (y2 ≤ 65535) × (x1 < x2) × (x2 ≤ 10000) × (u ≤ 65535) × (x1 ≤ u)

slope-le : (rise run : ℕ) → rise ≤ 65535 → slope rise run ≤ 65535 * 10 ^ 12
slope-le rise run h = omega (arith, div-le_self (rise * 10 ^ 12) run)

product-le : (s u : ℕ) → s ≤ 65535 * 10 ^ 12 → u ≤ 65535 → s * u ≤ 65535 * 10 ^ 12 * 65535
product-le s u h k = mul-le-mul h k

-- Over the whole of a falling segment the fall is at most y1 - y2, since the slope is rounded down.
pub falling_drop : (fall run d : ℕ) → 0 < run → d ≤ run → slope fall run * d ≤ fall * 10 ^ 12
falling_drop fall run d p h =
    le_trans (mul-le-mul_left (slope fall run) h) (div-mul-le_self (fall * 10 ^ 12) run)

rising_total :
    (s x1 d y1 : ℕ) → (s * (x1 + d) + y1 * 10 ^ 12 - s * x1) / 10 ^ 12 ≡ y1 + s * d / 10 ^ 12
rising_total s x1 d y1 = omega arith

falling_total :
    (s x1 d y1 : ℕ)
    → (s * x1 + y1 * 10 ^ 12 - s * (x1 + d)) / 10 ^ 12 ≡ (y1 * 10 ^ 12 - s * d) / 10 ^ 12
falling_total s x1 d y1 = omega arith

-- On a rising segment the rate is y1 and the slope times the distance from x1.
pub get_rate_rising :
    (y1 y2 x1 x2 d : ℕ)
    → InRange y1 y2 x1 x2 (x1 + d)
    → y1 ≤ y2
    → get_rate y1 y2 x1 x2 (x1 + d) ≡ ok (y1 + slope (y2 - y1) (x2 - x1) * d / 10 ^ 12)
unfolding get_rate
get_rate_rising y1 y2 x1 x2 d r up =
    let u : ℕ = x1 + d in
    let s : ℕ = slope (y2 - y1) (x2 - x1) in
    let s-le : s ≤ 65535 * 10 ^ 12 = slope-le (y2 - y1) (x2 - x1) (omega arith) in
    let near : s * x1 ≤ 65535 * 10 ^ 12 * 65535 = product-le s x1 s-le (omega arith) in
    let far : s * u ≤ 65535 * 10 ^ 12 * 65535 = product-le s u s-le (omega arith) in
    let order : s * x1 ≤ s * u = mul-le-mul_left s (omega arith) in
    let total : (s * u + y1 * 10 ^ 12 - s * x1) / 10 ^ 12 ≡ y1 + s * d / 10 ^ 12 =
      rising_total s x1 d y1 in
    rw
      (
        cast_to_signed-le i128_max y2 (omega arith),
        cast_to_signed-le i128_max y1 (omega arith),
        sub_rising i128_max y2 y1 up (omega arith),
        mul_pos i128_max (y2 - y1) (10 ^ 12) (omega arith),
        safe_sub-le x2 x1 (omega arith),
        cast_to_signed-le i128_max (x2 - x1) (omega arith),
        div_pos i128_max ((y2 - y1) * 10 ^ 12) (x2 - x1) (omega arith) (omega arith),
        mul_pos i128_max y1 (10 ^ 12) (omega arith),
        cast_to_signed-le i128_max x1 (omega arith),
        mul_pos i128_max s x1 (omega arith),
        sub_any i128_max (y1 * 10 ^ 12) (s * x1) (omega arith) (omega arith),
        cast_to_signed-le i128_max u (omega arith),
        mul_pos i128_max s u (omega arith),
        add_difference i128_max (s * u) (y1 * 10 ^ 12) (s * x1) (omega arith) (omega arith),
        div_pos i128_max (s * u + y1 * 10 ^ 12 - s * x1) (10 ^ 12) (omega arith) (omega arith),
        total,
      )
      (cast_to_unsigned-le u128_max (y1 + s * d / 10 ^ 12) (omega arith))

-- On a falling segment the rate is y1 less the slope times the distance from x1, rounded down.
pub get_rate_falling :
    (y1 y2 x1 x2 d : ℕ)
    → InRange y1 y2 x1 x2 (x1 + d)
    → x1 + d ≤ x2
    → y2 < y1
    → get_rate y1 y2 x1 x2 (x1 + d) ≡ ok ((y1 * 10 ^ 12 - slope (y1 - y2) (x2 - x1) * d) / 10 ^ 12)
unfolding get_rate
get_rate_falling y1 y2 x1 x2 d r inside down =
    let u : ℕ = x1 + d in
    let s : ℕ = slope (y1 - y2) (x2 - x1) in
    let s-le : s ≤ 65535 * 10 ^ 12 = slope-le (y1 - y2) (x2 - x1) (omega arith) in
    let near : s * x1 ≤ 65535 * 10 ^ 12 * 65535 = product-le s x1 s-le (omega arith) in
    let far : s * u ≤ 65535 * 10 ^ 12 * 65535 = product-le s u s-le (omega arith) in
    let drop : s * d ≤ (y1 - y2) * 10 ^ 12 =
      falling_drop (y1 - y2) (x2 - x1) d (omega arith) (omega arith) in
    let total : (y1 * 10 ^ 12 + s * x1 - s * u) / 10 ^ 12 ≡ (y1 * 10 ^ 12 - s * d) / 10 ^ 12 =
      omega (arith, falling_total s x1 d y1) in
    rw
      (
        cast_to_signed-le i128_max y2 (omega arith),
        cast_to_signed-le i128_max y1 (omega arith),
        sub_falling i128_max y2 y1 down (omega arith),
        mul_minus i128_max (y1 - y2) (10 ^ 12) (omega arith),
        safe_sub-le x2 x1 (omega arith),
        cast_to_signed-le i128_max (x2 - x1) (omega arith),
        div_minus i128_max ((y1 - y2) * 10 ^ 12) (x2 - x1) (omega arith) (omega arith),
        mul_pos i128_max y1 (10 ^ 12) (omega arith),
        cast_to_signed-le i128_max x1 (omega arith),
        mul_minus i128_max s x1 (omega arith),
        sub_minus i128_max (y1 * 10 ^ 12) (s * x1) (omega arith),
        cast_to_signed-le i128_max u (omega arith),
        mul_minus i128_max s u (omega arith),
        add_minus i128_max (s * u) (y1 * 10 ^ 12 + s * x1) (omega arith) (omega arith),
        div_pos i128_max (y1 * 10 ^ 12 + s * x1 - s * u) (10 ^ 12) (omega arith) (omega arith),
        total,
      )
      (cast_to_unsigned-le u128_max ((y1 * 10 ^ 12 - s * d) / 10 ^ 12) (omega arith))
