-- ===== src/Math/U256/MulDiv.antt =====
-- `U256Muldiv::div`, and `safe_multiply_divide` on top of it (`crates/library/src/math/u256.rs`).
use fluid_solana_programs.Base.{
  ℕ, zero, suc, ◌+◌, ◌-◌, ◌*◌, ◌/◌, ◌%◌, ◌^◌, ltb, leb, ◌==◌, if◌then◌else◌, Bool, true, ◌&&◌,
}
use fluid_solana_programs.Base.Errors.{panic, library, library_division_by_zero, library_math_error}
use fluid_solana_programs.Base.Result.{Result, ok, err, ◌>>=◌, ◌>>◌, fail_if}
use fluid_solana_programs.Math.Words.{u128_max}
use fluid_solana_programs.Math.U256.{
  U256Muldiv, new, lo, hi_lo, get_word, update_word, num_words, try_into_u128, mul_u256,
}
use fluid_solana_programs.Math.U256.Shift.{shift_left, shift_right, leading_zeros}
use fluid_solana_programs.Math.U256.Division.{div_loop}

-- Case 3, `for j in (0..num_dividend_words).rev()`: the quotient and the remainder by one word.
unfoldable pub short_division : ℕ → U256Muldiv → ℕ → ℕ → U256Muldiv → U256Muldiv × ℕ
short_division zero dividend d2 k quotient = (quotient, k)
short_division (suc j) dividend d2 k quotient =
    let d1 = hi_lo (lo k) (get_word dividend j) in
    let q = d1 / d2 in short_division j dividend d2 (d1 - d2 * q) (update_word quotient j (lo q))

-- `for j in (0..num_dividend_words - num_divisor_words + 1).rev()`
long_division : ℕ → ℕ → U256Muldiv → ℕ → U256Muldiv → U256Muldiv → Result (U256Muldiv × U256Muldiv)
long_division zero n dividend space divisor quotient = ok (quotient, dividend)
long_division (suc j) n dividend space divisor quotient = do
  (rest, left, q) ← div_loop j n dividend space divisor quotient
  long_division j n rest left divisor q

abbrev keep_remainder : Bool → U256Muldiv → U256Muldiv
keep_remainder wanted r = if wanted then r else new 0 0

-- The division with the divisor normalized.
unfoldable pub normalized_division :
    U256Muldiv → U256Muldiv → Bool → ℕ → ℕ → Result (U256Muldiv × U256Muldiv)
unfolding long_division
normalized_division dividend divisor wanted num_dividend num_divisor =
    let s = leading_zeros (get_word divisor (num_divisor - 1)) in
    let b = leading_zeros (get_word dividend (num_dividend - 1)) in
    let space =
      if num_dividend == 4 && ltb b s
      then get_word dividend (num_dividend - 1) / 2 ^ (64 - s)
      else 0 in
    do
      (quotient, rest) ←
          long_division (num_dividend - num_divisor + 1) num_divisor (shift_left dividend s) space
            (shift_left divisor s) (new 0 0)
      ok (quotient, keep_remainder wanted (shift_right rest s))

-- Case 2: both numbers fit a u128.
unfoldable pub small_division : U256Muldiv → U256Muldiv → Bool → Result (U256Muldiv × U256Muldiv)
small_division dividend divisor wanted = do
  a ← try_into_u128 dividend
  b ← try_into_u128 divisor
  ok (new 0 (a / b), keep_remainder wanted (new 0 (a % b)))

unfoldable pub div : U256Muldiv → U256Muldiv → Bool → Result (U256Muldiv × U256Muldiv)
div dividend divisor wanted =
    let m = num_words dividend in
    let n = num_words divisor in
    if n == 0
    then err panic
    else if m == 0
    then ok (new 0 0, new 0 0)
    else if ltb m n
    then ok (new 0 0, keep_remainder wanted dividend)
    else if ltb m 3
    then small_division dividend divisor wanted
    else if n == 1
    then (let (quotient, k) = short_division m dividend (get_word divisor 0) 0 (new 0 0) in
        ok (quotient, keep_remainder wanted (new 0 k)))
    else normalized_division dividend divisor wanted m n

-- `MulDivResult`
pub record MulDivResult : Type 0 where
  pub quotient : ℕ
  pub remainder : ℕ

unfoldable pub safe_multiply_divide_result : ℕ → ℕ → ℕ → Result MulDivResult
safe_multiply_divide_result a b c = do
  fail_if (c == 0) (library library_division_by_zero)
  (q, r) ← div (mul_u256 a b) (new 0 c) true
  quotient ← try_into_u128 q
  remainder ← try_into_u128 r
  ok (record { quotient = quotient; remainder = remainder })

-- `MulDivResult::get_ceil`
unfoldable pub get_ceil : MulDivResult → Result ℕ
get_ceil r =
    if r.remainder == 0
    then ok r.quotient
    else if leb (r.quotient + 1) u128_max
    then ok (r.quotient + 1)
    else err (library library_math_error)

unfoldable pub safe_multiply_divide_up : ℕ → ℕ → ℕ → Result ℕ
safe_multiply_divide_up a b c = do r ← safe_multiply_divide_result a b c; get_ceil r

unfoldable pub safe_multiply_divide : ℕ → ℕ → ℕ → Result ℕ
safe_multiply_divide a b c = do r ← safe_multiply_divide_result a b c; ok r.quotient
