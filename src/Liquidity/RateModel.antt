-- ===== src/Liquidity/RateModel.antt =====
-- `programs/liquidity/src/state/rate_model.rs`: the borrow rate as a piecewise linear function of
-- the utilization. Rates and utilizations are in 1e2 (100% is 10_000). Events are left out.
mod Line
pub mod Curve
pub mod Rates
mod Tests
use fluid_solana_programs.Base.{ℕ, ◌≡◌, ltb, leb, ◌==◌, if◌then◌else◌, ◌||◌}
use fluid_solana_programs.Base.Int.{ℤ, pos, is_neg}
use fluid_solana_programs.Base.Errors.{
  liquidity, invalid_params, unsupported_rate_version, borrow_rate_negative,
}
use fluid_solana_programs.Base.Result.{Result, ok, err, ◌>>=◌, ◌>>◌, fail_if}
use fluid_solana_programs.Math.Words.{u16_max, u128_max, i128_max}
use fluid_solana_programs.Math.Casting.{cast, cast_to_signed, cast_to_unsigned}
use fluid_solana_programs.Math.SafeMath
use fluid_solana_programs.Math.Signed
use fluid_solana_programs.Liquidity.Constants.{Pubkey, four_decimals, twelve_decimals}

pub record RateModel : Type 0 where
  pub mint : Pubkey
  pub version : ℕ
  pub rate_at_zero : ℕ
  pub kink1_utilization : ℕ
  pub rate_at_kink1 : ℕ
  pub rate_at_max : ℕ
  pub kink2_utilization : ℕ
  pub rate_at_kink2 : ℕ

pub record RateDataV1Params : Type 0 where
  pub kink : ℕ
  pub rate_at_utilization_zero : ℕ
  pub rate_at_utilization_kink : ℕ
  pub rate_at_utilization_max : ℕ

pub record RateDataV2Params : Type 0 where
  pub kink1 : ℕ
  pub kink2 : ℕ
  pub rate_at_utilization_zero : ℕ
  pub rate_at_utilization_kink1 : ℕ
  pub rate_at_utilization_kink2 : ℕ
  pub rate_at_utilization_max : ℕ

abbrev pub max_rate : ℕ
max_rate = 65535

unfoldable pub set_rate_v1 : RateDataV1Params → RateModel → Result RateModel
unfolding cast
set_rate_v1 d m = do
  fail_if
      (d.kink == 0
        || leb four_decimals d.kink
        || ltb d.rate_at_utilization_max d.rate_at_utilization_kink)
      (liquidity invalid_params)
  zero_rate ← cast u16_max d.rate_at_utilization_zero
  kink1 ← cast u16_max d.kink
  kink1_rate ← cast u16_max d.rate_at_utilization_kink
  max ← cast u16_max d.rate_at_utilization_max
  ok (record m {
    version = 1;
    rate_at_zero = zero_rate;
    kink1_utilization = kink1;
    rate_at_kink1 = kink1_rate;
    rate_at_max = max;
  })

unfoldable pub set_rate_v2 : RateDataV2Params → RateModel → Result RateModel
unfolding cast
set_rate_v2 d m = do
  fail_if
      (d.kink1 == 0
        || leb four_decimals d.kink1
        || leb d.kink2 d.kink1
        || leb four_decimals d.kink2
        || ltb d.rate_at_utilization_max d.rate_at_utilization_kink2)
      (liquidity invalid_params)
  zero_rate ← cast u16_max d.rate_at_utilization_zero
  kink1 ← cast u16_max d.kink1
  kink1_rate ← cast u16_max d.rate_at_utilization_kink1
  kink2 ← cast u16_max d.kink2
  kink2_rate ← cast u16_max d.rate_at_utilization_kink2
  max ← cast u16_max d.rate_at_utilization_max
  ok (record m {
    version = 2;
    rate_at_zero = zero_rate;
    kink1_utilization = kink1;
    rate_at_kink1 = kink1_rate;
    kink2_utilization = kink2;
    rate_at_kink2 = kink2_rate;
    rate_at_max = max;
  })

-- The line through (x1, y1) and (x2, y2) at `utilization`.
unfoldable pub get_rate : ℕ → ℕ → ℕ → ℕ → ℕ → Result ℕ
unfolding cast_to_signed cast_to_unsigned SafeMath.safe_sub Signed.safe_sub Signed.safe_mul
    Signed.safe_div Signed.safe_add
get_rate y1 y2 x1 x2 utilization = do
  top ← cast_to_signed i128_max y2
  bottom ← cast_to_signed i128_max y1
  rise ← Signed.safe_sub i128_max top bottom
  precision ← cast_to_signed i128_max twelve_decimals
  num ← Signed.safe_mul i128_max rise precision
  run ← SafeMath.safe_sub x2 x1
  den ← cast_to_signed i128_max run
  slope ← Signed.safe_div i128_max num den
  scaled_y1 ← Signed.safe_mul i128_max bottom precision
  start ← cast_to_signed i128_max x1
  offset ← Signed.safe_mul i128_max slope start
  constant ← Signed.safe_sub i128_max scaled_y1 offset
  at ← cast_to_signed i128_max utilization
  product ← Signed.safe_mul i128_max slope at
  total ← Signed.safe_add i128_max product constant
  rate ← Signed.safe_div i128_max total precision
  fail_if (is_neg rate) (liquidity borrow_rate_negative)
  cast_to_unsigned u128_max rate

unfoldable pub calc_rate_v1 : RateModel → ℕ → Result ℕ
calc_rate_v1 m utilization =
    if ltb utilization m.kink1_utilization
    then get_rate m.rate_at_zero m.rate_at_kink1 0 m.kink1_utilization utilization
    else get_rate m.rate_at_kink1 m.rate_at_max m.kink1_utilization four_decimals utilization

unfoldable pub calc_rate_v2 : RateModel → ℕ → Result ℕ
calc_rate_v2 m utilization =
    if ltb utilization m.kink1_utilization
    then get_rate m.rate_at_zero m.rate_at_kink1 0 m.kink1_utilization utilization
    else if ltb utilization m.kink2_utilization
    then get_rate m.rate_at_kink1 m.rate_at_kink2 m.kink1_utilization m.kink2_utilization
        utilization
    else get_rate m.rate_at_kink2 m.rate_at_max m.kink2_utilization four_decimals utilization

abbrev pub calc_rate : RateModel → ℕ → Result ℕ
calc_rate m utilization =
    if m.version == 1
    then calc_rate_v1 m utilization
    else if m.version == 2
    then calc_rate_v2 m utilization
    else err (liquidity unsupported_rate_version)

-- The rate is capped at what 16 bits hold.
unfoldable pub calc_borrow_rate_from_utilization : RateModel → ℕ → Result ℕ
unfolding cast
calc_borrow_rate_from_utilization m utilization = do
  rate ← calc_rate m utilization
  if ltb max_rate rate then ok max_rate else cast u16_max rate
