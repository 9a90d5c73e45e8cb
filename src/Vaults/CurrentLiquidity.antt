-- ===== src/Vaults/CurrentLiquidity.antt =====
-- `CurrentLiquidity` and `TickMemoryVars` of `programs/vaults/src/state/structs.rs`: the amounts and
-- ticks that the loop of a liquidation keeps. A `cast` from u128 to u128 changes nothing and is left
-- out.
pub mod Amounts
use fluid_solana_programs.Base.{ℕ, ◌-◌, ltb, leb, ◌==◌, if◌then◌else◌, Bool, ◌&&◌}
use fluid_solana_programs.Base.Int.{ℤ}
use fluid_solana_programs.Base.Errors.{vault, vault_invalid_liquidation, vault_liquidation_reverts}
use fluid_solana_programs.Base.Result.{Result, ok, err, ◌>>=◌, ◌>>◌, fail_if}
use fluid_solana_programs.Math.Words.{u64_max, u128_max}
use fluid_solana_programs.Math.SafeMath.{safe_add, safe_sub, safe_mul, safe_div, safe_div_ceil}
use fluid_solana_programs.Math.U256.MulDiv.{safe_multiply_divide}
use fluid_solana_programs.Math.Bn.{two_power_64}
use fluid_solana_programs.Math.Tick.{zero_tick_scaled_ratio}
use fluid_solana_programs.Math.Casting.{cast}
use fluid_solana_programs.Liquidity.Constants.{exchange_prices_precision}
use fluid_solana_programs.Vaults.Constants.{x30, max_liquidation_rounding_diff, rate_output}

pub record CurrentLiquidity : Type 0 where
  pub debt_remaining : ℕ
  pub debt : ℕ
  pub col : ℕ
  pub total_debt_liq : ℕ
  pub total_col_liq : ℕ
  pub tick : ℤ
  pub ratio : ℕ
  pub tick_status : ℕ
  pub ref_tick : ℤ
  pub ref_ratio : ℕ
  pub ref_tick_status : ℕ

abbrev pub is_perfect_tick : CurrentLiquidity → Bool
is_perfect_tick d = d.tick_status == 1

abbrev pub is_ref_tick_liquidated : CurrentLiquidity → Bool
is_ref_tick_liquidated d = d.ref_tick_status == 2

abbrev pub is_ref_tick_liquidation_threshold : CurrentLiquidity → Bool
is_ref_tick_liquidation_threshold d = d.ref_tick_status == 3

unfoldable pub get_normal_debt_liq : ℕ → CurrentLiquidity → Result ℕ
get_normal_debt_liq borrow_ex_price d = do
  scaled ← safe_mul u128_max d.total_debt_liq borrow_ex_price
  safe_div_ceil u128_max scaled exchange_prices_precision

unfoldable pub get_normal_col_liq : ℕ → CurrentLiquidity → Result ℕ
get_normal_col_liq supply_ex_price d = do
  scaled ← safe_mul u128_max d.total_col_liq supply_ex_price
  safe_div scaled exchange_prices_precision

-- The branch where more debt is liquidated than was asked for; the arguments of its event are cast to
-- u64 before the error is returned.
unfoldable pub limit_amounts : ℕ → ℕ → ℕ → Result (ℕ × ℕ)
limit_amounts debt_amount actual_debt_amt actual_col_amt =
    if ltb debt_amount actual_debt_amt
    then (do
      diff ← safe_sub actual_debt_amt debt_amount
      if ltb max_liquidation_rounding_diff diff
          then (do
            _ ← cast u64_max actual_debt_amt
            _ ← cast u64_max debt_amount
            _ ← cast u64_max diff
            err (vault vault_invalid_liquidation))
          else (do
            scaled ← safe_mul u128_max actual_col_amt debt_amount
            col ← safe_div scaled actual_debt_amt
            ok (debt_amount, col)))
    else ok (actual_debt_amt, actual_col_amt)

unfoldable pub get_actual_amounts : ℕ → ℕ → ℕ → CurrentLiquidity → Result (ℕ × ℕ)
get_actual_amounts borrow_ex_price supply_ex_price debt_amount d = do
  normal_debt ← get_normal_debt_liq borrow_ex_price d
  normal_col ← get_normal_col_liq supply_ex_price d
  (actual_debt_amt, actual_col_amt) ← limit_amounts debt_amount normal_debt normal_col
  fail_if (actual_debt_amt == 0) (vault vault_invalid_liquidation)
  ok (actual_debt_amt, actual_col_amt)

unfoldable pub reduce_debt_remaining : ℕ → CurrentLiquidity → Result CurrentLiquidity
reduce_debt_remaining debt_liquidated d = do
  left ← safe_sub d.debt_remaining debt_liquidated
  ok (record d { debt_remaining = left })

-- `reduce_col`, `increase_total_col_liq`, `increase_total_debt_liq`, `reduce_debt`.
unfoldable pub update_totals : ℕ → ℕ → CurrentLiquidity → Result CurrentLiquidity
update_totals debt_liquidated col_liquidated d = do
  col_left ← safe_sub d.col col_liquidated
  total_col ← safe_add u128_max d.total_col_liq col_liquidated
  total_debt ← safe_add u128_max d.total_debt_liq debt_liquidated
  debt_left ← safe_sub d.debt debt_liquidated
  ok (record d {
    col = col_left;
    total_col_liq = total_col;
    total_debt_liq = total_debt;
    debt = debt_left;
  })

unfoldable pub get_debt_factor : ℕ → CurrentLiquidity → Result ℕ
get_debt_factor debt_liquidated d = do
  left ← safe_sub d.debt debt_liquidated
  scaled ← safe_mul u128_max two_power_64 left
  safe_div scaled d.debt

unfoldable pub check_is_ref_partials_safe_for_tick : ℕ → ℕ → Result (Unit {0})
check_is_ref_partials_safe_for_tick existing_partials partials =
    fail_if (ltb 0 existing_partials && leb partials existing_partials)
      (vault vault_liquidation_reverts)

unfoldable pub get_final_ratio : ℕ → ℕ → CurrentLiquidity → Result ℕ
get_final_ratio col_liquidated debt_liquidated d = do
  debt_left ← safe_sub d.debt debt_liquidated
  scaled ← safe_mul u128_max debt_left zero_tick_scaled_ratio
  col_left ← safe_sub d.col col_liquidated
  safe_div scaled col_left

unfoldable pub update_next_iterations_with_ref : CurrentLiquidity → CurrentLiquidity
update_next_iterations_with_ref d = record d {
  tick = d.ref_tick;
  tick_status = d.ref_tick_status;
  ratio = d.ref_ratio;
}

unfoldable pub get_debt_from_ratios : CurrentLiquidity → Result ℕ
get_debt_from_ratios d = do scaled ← safe_mul u128_max d.ref_ratio d.debt; safe_div scaled d.ratio

unfoldable pub get_col_from_ratios : ℕ → CurrentLiquidity → Result ℕ
get_col_from_ratios col_per_debt d =
    safe_multiply_divide col_per_debt d.ref_ratio zero_tick_scaled_ratio

unfoldable pub get_debt_liquidated : ℕ → CurrentLiquidity → Result ℕ
unfolding get_debt_from_ratios get_col_from_ratios
get_debt_liquidated col_per_debt d = do
  debt_at_ref ← get_debt_from_ratios d
  above ← safe_sub d.debt debt_at_ref
  numerator ← safe_mul u128_max above rate_output
  col_at_ref ← get_col_from_ratios col_per_debt d
  denominator ← safe_sub rate_output col_at_ref
  safe_div numerator denominator

pub record TickMemoryVars : Type 0 where
  pub tick : ℤ
  pub partials : ℕ

unfoldable pub set_partials : ℕ → TickMemoryVars → TickMemoryVars
set_partials partials t = record t {
  partials = if partials == 0 then 1 else if leb x30 partials then x30 - 1 else partials;
}

abbrev pub set_tick : ℤ → TickMemoryVars → TickMemoryVars
set_tick tick t = record t { tick = tick }
