-- ===== src/Math/Bn.antt =====
-- `crates/library/src/math/bn.rs`: the big numbers of the debt factors, a coefficient of 35 bits above
-- an exponent of 15 bits. Every `|` joins a coefficient shifted by 15 bits with an exponent that has
-- been checked to be below 2^15, so it is a sum here; `>>` is a quotient and `&` with a mask of low
-- bits a remainder.
pub mod Coefficient
pub mod Factor
pub mod Quotient
mod Tests
use fluid_solana_programs.Base.{
  ℕ, ◌+◌, ◌-◌, ◌*◌, ◌/◌, ◌%◌, ◌^◌, ltb, leb, ◌==◌, if◌then◌else◌, ◌||◌,
}
use fluid_solana_programs.Base.Errors.{panic, library, library_bn_error, library_division_by_zero}
use fluid_solana_programs.Base.Result.{Result, ok, err, ◌>>=◌}
use fluid_solana_programs.Math.Words.{u64_max, u128_max}
use fluid_solana_programs.Math.U256.Shift.{zeros_above}

abbrev pub coefficient_size_debt_factor : ℕ
coefficient_size_debt_factor = 35

abbrev pub exponent_size_debt_factor : ℕ
exponent_size_debt_factor = 15

abbrev pub exponent_max_debt_factor : ℕ
exponent_max_debt_factor = 2 ^ 15 - 1

abbrev pub decimals_debt_factor : ℕ
decimals_debt_factor = 16384

abbrev pub max_mask_debt_factor : ℕ
max_mask_debt_factor = 2 ^ 50 - 1

abbrev pub precision : ℕ
precision = 64

abbrev pub two_power_64 : ℕ
two_power_64 = 2 ^ 64

-- `b >> EXPONENT_SIZE_DEBT_FACTOR`
abbrev pub extract_coefficient : ℕ → ℕ
extract_coefficient b = b / 2 ^ 15

-- `b & EXPONENT_MAX_DEBT_FACTOR`
abbrev pub extract_exponent : ℕ → ℕ
extract_exponent b = b % 2 ^ 15

-- `(coefficient << EXPONENT_SIZE_DEBT_FACTOR) | exponent` on u64, for an exponent below 2^15.
abbrev pub create_big_number : ℕ → ℕ → ℕ
create_big_number coefficient exponent = coefficient * 2 ^ 15 % 2 ^ 64 + exponent

-- `a * b` on u128, where an overflow panics.
abbrev mul_u128 : ℕ → ℕ → Result ℕ
mul_u128 a b = if leb (a * b) u128_max then ok (a * b) else err panic

-- `numerator / denominator`, with the checks around it.
unfoldable pub quotient_u64 : ℕ → ℕ → Result ℕ
quotient_u64 numerator denominator =
    if denominator == 0
    then err (library library_division_by_zero)
    else if ltb u64_max (numerator / denominator)
    then err (library library_bn_error)
    else ok (numerator / denominator)

-- The branch with a net exponent below 129: `checked_shl` refuses a shift by 128 bits or more only,
-- and a smaller shift drops the high bits.
unfoldable pub divide_shifted : ℕ → ℕ → ℕ → ℕ → Result ℕ
unfolding quotient_u64
divide_shifted normal coefficient1 coefficient2 net_exponent = do
  numerator ← mul_u128 normal coefficient1
  if ltb net_exponent 128
      then quotient_u64 numerator (coefficient2 * 2 ^ net_exponent % 2 ^ 128)
      else ok 0

unfoldable pub mul_div_normal : ℕ → ℕ → ℕ → Result ℕ
mul_div_normal normal big_number1 big_number2 =
    let exponent1 = extract_exponent big_number1 in
    let exponent2 = extract_exponent big_number2 in
    if big_number1 == 0 || big_number2 == 0
    then ok 0
    else if ltb exponent2 exponent1
    then err (library library_bn_error)
    else if ltb (exponent2 - exponent1) 129
    then divide_shifted normal (extract_coefficient big_number1) (extract_coefficient big_number2)
        (exponent2 - exponent1)
    else ok 0

-- `128 - normal.leading_zeros()`, 0 for 0.
unfoldable pub most_significant_bit : ℕ → ℕ
unfolding zeros_above
most_significant_bit normal = if normal == 0 then 0 else 128 - zeros_above 128 normal

-- The bits by which the numerator is longer than a coefficient; `saturating_sub`.
unfoldable pub excess_bits : ℕ → ℕ
unfolding most_significant_bit
excess_bits numerator =
    (if ltb (2 ^ 98 - 1) numerator
      then 99
      else if ltb (2 ^ 97 - 1) numerator
      then 98
      else most_significant_bit numerator)
    - coefficient_size_debt_factor

-- The exponent without the `PRECISION` bits that the division by 2^64 takes off.
unfoldable pub lower_exponent : ℕ → ℕ → Result ℕ
lower_exponent adjusted_coefficient result_exponent =
    if ltb precision result_exponent
    then if ltb exponent_max_debt_factor (result_exponent - precision)
      then err (library library_bn_error)
      else ok (create_big_number adjusted_coefficient (result_exponent - precision))
    else err (library library_bn_error)

unfoldable pub mul_div_big_number : ℕ → ℕ → Result ℕ
mul_div_big_number big_number number1 = if big_number == 0 || number1 == 0 then ok 0 else (do
  result_numerator ← mul_u128 (extract_coefficient big_number) number1
  let diff = excess_bits result_numerator
  lower_exponent (result_numerator / 2 ^ diff % 2 ^ 64) (extract_exponent big_number + diff))

-- The length of the product of two coefficients beyond a coefficient.
abbrev pub overflow_len : ℕ → ℕ
overflow_len res_coefficient = if ltb (2 ^ 69 - 1) res_coefficient then 35 else 34

unfoldable pub mul_big_number : ℕ → ℕ → Result ℕ
mul_big_number big_number1 big_number2 = do
  res_coefficient ← mul_u128 (extract_coefficient big_number1) (extract_coefficient big_number2)
  let length = overflow_len res_coefficient
  let res_exponent = extract_exponent big_number1 + extract_exponent big_number2 + length
  if ltb res_exponent decimals_debt_factor
      then err (library library_bn_error)
      else if ltb exponent_max_debt_factor (res_exponent - decimals_debt_factor)
      then ok max_mask_debt_factor
      else ok (
          create_big_number (res_coefficient / 2 ^ length % 2 ^ 64)
            (res_exponent - decimals_debt_factor))

-- The coefficient of the quotient has 64 or 65 bits, of which 35 are kept.
abbrev pub adjusted_overflow_len : ℕ → ℕ
adjusted_overflow_len res_coefficient = if res_coefficient / 2 ^ 64 == 1 then 30 else 29

unfoldable pub div_big_number : ℕ → ℕ → Result ℕ
div_big_number big_number1 big_number2 =
    if big_number1 == 0
    then ok 0
    else if big_number2 == 0 || extract_coefficient big_number2 == 0
    then err (library library_division_by_zero)
    else (let res_coefficient =
          extract_coefficient big_number1 * 2 ^ 64 / extract_coefficient big_number2 in
        let length = adjusted_overflow_len res_coefficient in
        let addition_part = extract_exponent big_number1 + decimals_debt_factor + length in
        let subtraction_part = extract_exponent big_number2 + precision in
        if ltb subtraction_part addition_part
        then if ltb exponent_max_debt_factor (addition_part - subtraction_part)
          then err (library library_bn_error)
          else ok (
              create_big_number (res_coefficient / 2 ^ length % 2 ^ 64)
                (addition_part - subtraction_part))
        else err (library library_bn_error))
