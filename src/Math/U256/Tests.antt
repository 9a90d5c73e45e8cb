-- ===== src/Math/U256/Tests.antt =====
-- Runs of the 256-bit arithmetic, the division by two words included.
use fluid_solana_programs.Base.{◌+◌, ◌-◌, ◌*◌, ◌/◌, ◌^◌, ◌≡◌, refl}
use fluid_solana_programs.Base.Result.{ok}
use fluid_solana_programs.Math.U256.MulDiv.{
  safe_multiply_divide, safe_multiply_divide_up, safe_multiply_divide_result, get_ceil, div,
  short_division, small_division, normalized_division,
}
use fluid_solana_programs.Math.U256.Division.{div_loop}
use fluid_solana_programs.Math.U256.Shift.{shift_left, shift_right, leading_zeros}
use fluid_solana_programs.Math.U256.{mul_u256, num_words, try_into_u128}

runs_small : safe_multiply_divide_up 10 7 3 ≡ ok 24
unfolding safe_multiply_divide safe_multiply_divide_up safe_multiply_divide_result get_ceil mul_u256
    div short_division small_division normalized_division num_words try_into_u128 div_loop
    shift_left shift_right leading_zeros
runs_small = refl

runs_one_word :
    safe_multiply_divide (2 ^ 100 + 12345) (2 ^ 70 + 77) (2 ^ 61 - 1)
    ≡ ok ((2 ^ 100 + 12345) * (2 ^ 70 + 77) / (2 ^ 61 - 1))
unfolding safe_multiply_divide safe_multiply_divide_up safe_multiply_divide_result get_ceil mul_u256
    div short_division small_division normalized_division num_words try_into_u128 div_loop
    shift_left shift_right leading_zeros
runs_one_word = refl

runs_two_words :
    safe_multiply_divide
      (2 ^ 127 + 987654321987654321)
      (2 ^ 126 + 77)
      (2 ^ 127 + 123456789123456789123456789)
    ≡ ok ((2 ^ 127 + 987654321987654321) * (2 ^ 126 + 77) / (2 ^ 127 + 123456789123456789123456789))
unfolding safe_multiply_divide safe_multiply_divide_up safe_multiply_divide_result get_ceil mul_u256
    div short_division small_division normalized_division num_words try_into_u128 div_loop
    shift_left shift_right leading_zeros
runs_two_words = refl

runs_three_words :
    safe_multiply_divide (2 ^ 117 + 987654321987654321) (2 ^ 56 + 77) (2 ^ 77 + 123456789123456789)
    ≡ ok ((2 ^ 117 + 987654321987654321) * (2 ^ 56 + 77) / (2 ^ 77 + 123456789123456789))
unfolding safe_multiply_divide safe_multiply_divide_up safe_multiply_divide_result get_ceil mul_u256
    div short_division small_division normalized_division num_words try_into_u128 div_loop
    shift_left shift_right leading_zeros
runs_three_words = refl
