-- ===== src/Math/Tests.antt =====
-- Runs of the arithmetic.
use fluid_solana_programs.Base.{◌*◌, ◌/◌, ◌%◌, ◌^◌, ◌≤◌, ◌<◌, ◌≡◌, refl, ◌⊎◌, arith}
use fluid_solana_programs.Base.Result.{ok, err}
use fluid_solana_programs.Base.Errors.{library, library_u256_number_down_cast_error}
use fluid_solana_programs.Math.SafeMath.{safe_div_ceil}
use fluid_solana_programs.Math.U256.MulDiv.{safe_multiply_divide_result}
use fluid_solana_programs.Math.U256.Quotient.{safe_multiply_divide_result-eq}

ceil_runs : safe_div_ceil 100 10 3 ≡ ok 4
unfolding safe_div_ceil
ceil_runs = refl

safe_multiply_divide_result-eq_example :
    ((2 ^ 100 * 2 ^ 90 / 10 ^ 17 < 2 ^ 128)
      × (safe_multiply_divide_result (2 ^ 100) (2 ^ 90) (10 ^ 17)
          ≡ ok (record {
            quotient = 2 ^ 100 * 2 ^ 90 / 10 ^ 17;
            remainder = 2 ^ 100 * 2 ^ 90 % 10 ^ 17;
          })))
    ⊎ ((2 ^ 128 ≤ 2 ^ 100 * 2 ^ 90 / 10 ^ 17)
        × (safe_multiply_divide_result (2 ^ 100) (2 ^ 90) (10 ^ 17)
            ≡ err (library library_u256_number_down_cast_error)))
safe_multiply_divide_result-eq_example =
    safe_multiply_divide_result-eq (2 ^ 100) (2 ^ 90) (10 ^ 17) (omega arith) (omega arith)
      (omega arith) (omega arith)
