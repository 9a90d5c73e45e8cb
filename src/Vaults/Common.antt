-- ===== src/Vaults/Common.antt =====
-- `programs/vaults/src/utils/common.rs`: amounts are kept with nine decimals.
use fluid_solana_programs.Base.{ℕ, ◌-◌, ◌^◌, leb, if◌then◌else◌}
use fluid_solana_programs.Base.Int.{ℤ}
use fluid_solana_programs.Base.Errors.{vault, vault_invalid_decimals}
use fluid_solana_programs.Base.Result.{Result, ok, err, ◌>>=◌}
use fluid_solana_programs.Math.Words.{u128_max, i128_max}
use fluid_solana_programs.Math.Casting.{cast_to_signed, cast_to_unsigned}
use fluid_solana_programs.Math.Signed
use fluid_solana_programs.Vaults.Constants.{
  max_token_decimals, lower_decimals_operate, min_debt, min_debt_lower_decimals,
  minimum_branch_debt, minimum_branch_debt_lower_decimals, minimum_tick_debt,
  minimum_tick_debt_lower_decimals,
}

unfoldable pub get_scale : ℕ → Result ℕ
get_scale decimals =
    if leb decimals max_token_decimals
    then ok (10 ^ (max_token_decimals - decimals))
    else err (vault vault_invalid_decimals)

unfoldable pub scale_amounts : ℤ → ℕ → Result ℤ
scale_amounts amount decimals = do
  scale ← get_scale decimals
  signed ← cast_to_signed i128_max scale
  Signed.safe_mul i128_max amount signed

unfoldable pub unscale_amounts : ℤ → ℕ → Result ℤ
unscale_amounts amount decimals = do
  scale ← get_scale decimals
  signed ← cast_to_signed i128_max scale
  Signed.safe_div i128_max amount signed

unfoldable pub unscale_amounts_up : ℤ → ℕ → Result ℤ
unscale_amounts_up amount decimals = do
  scale ← get_scale decimals
  signed ← cast_to_signed i128_max scale
  Signed.safe_div_ceil i128_max amount signed

-- The first minimum for a token of at least four decimals, the second for one of fewer.
abbrev scaled_minimum : ℕ → ℕ → ℕ → Result ℕ
scaled_minimum usual lower_decimals decimals = do
  minimum ←
      cast_to_signed i128_max
        (if leb lower_decimals_operate decimals then usual else lower_decimals)
  scaled ← scale_amounts minimum decimals
  cast_to_unsigned u128_max scaled

unfoldable pub get_minimum_tick_debt : ℕ → Result ℕ
get_minimum_tick_debt = scaled_minimum minimum_tick_debt minimum_tick_debt_lower_decimals

unfoldable pub get_minimum_debt : ℕ → Result ℕ
get_minimum_debt = scaled_minimum min_debt min_debt_lower_decimals

unfoldable pub get_minimum_branch_debt : ℕ → Result ℕ
get_minimum_branch_debt = scaled_minimum minimum_branch_debt minimum_branch_debt_lower_decimals
