-- ===== src/Vaults/Operate.antt =====
-- The checks of an `operate` on a vault: `programs/vaults/src/utils/operate.rs`, with `OldState` and
-- `OperateMemoryVars` of `state/structs.rs`. The two exchange rates of the oracle are arguments.
pub mod Checks
pub mod Latest
pub mod AddDebt
pub mod Tracked
mod Tests
use fluid_solana_programs.Base.{
  ℕ, ◌+◌, ◌-◌, ◌^◌, ltb, leb, ◌==◌, if◌then◌else◌, Bool, not, ◌&&◌, ◌||◌,
}
use fluid_solana_programs.Base.Int.{ℤ, is_neg, is_pos, ltb_ℤ, eqb_ℤ, nat_abs}
use fluid_solana_programs.Base.Errors.{
  Error, vault, vault_invalid_oracle_price, vault_position_above_cf,
  vault_position_above_liquidation_threshold, vault_withdraw_more_than_operate_limit,
  vault_invalid_payback_or_deposit, vault_invalid_operate_amount,
}
use fluid_solana_programs.Base.Result.{Result, ok, ◌>>=◌, ◌>>◌, fail_if}
use fluid_solana_programs.Math.Words.{u128_max, i128_max}
use fluid_solana_programs.Math.Casting.{cast_to_unsigned}
use fluid_solana_programs.Math.SafeMath.{safe_add, safe_sub, safe_mul, safe_div}
use fluid_solana_programs.Math.Signed
use fluid_solana_programs.Math.U256.MulDiv.{safe_multiply_divide}
use fluid_solana_programs.Math.Tick.{get_tick_at_ratio, zero_tick_scaled_ratio}
use fluid_solana_programs.Liquidity.Constants.{exchange_prices_precision}
use fluid_solana_programs.Liquidity.SupplyPosition.{
  UserSupplyPosition, calc_withdrawal_limit_before_operate,
}
use fluid_solana_programs.Vaults.Constants.{
  three_decimals, billion, rate_output, lower_decimals_operate, min_operate, max_operate,
  min_operate_lower_decimals_amount,
}

pub record OldState : Type 0 where
  pub old_col_raw : ℕ
  pub old_net_debt_raw : ℕ
  pub old_tick : ℤ

pub record OperateMemoryVars : Type 0 where
  pub col_raw : ℕ
  pub debt_raw : ℕ
  pub dust_debt_raw : ℕ
  pub tick : ℤ
  pub tick_id : ℕ

unfoldable pub get_old_ratio : OldState → Result ℕ
get_old_ratio s = do
  scaled ← safe_mul u128_max s.old_net_debt_raw zero_tick_scaled_ratio
  safe_div scaled s.old_col_raw

abbrev pub get_net_debt_raw : OperateMemoryVars → Result ℕ
get_net_debt_raw m = safe_sub m.debt_raw m.dust_debt_raw

unfoldable pub get_new_ratio : ℕ → OperateMemoryVars → Result ℕ
get_new_ratio new_net_debt_raw m = do
  scaled ← safe_mul u128_max new_net_debt_raw zero_tick_scaled_ratio
  safe_div scaled m.col_raw

-- `get_scaled_debt(None)`
unfoldable pub get_scaled_debt : OperateMemoryVars → Result ℕ
get_scaled_debt m = do
  raised ← safe_mul u128_max m.debt_raw (billion + 1)
  scaled ← safe_div raised billion
  safe_add u128_max scaled 1

unfoldable pub get_sanitized_exchange_rate : ℕ → ℕ → ℕ → Result ℕ
get_sanitized_exchange_rate exchange_rate supply_ex_price borrow_ex_price = do
  fail_if (ltb (10 ^ 24) exchange_rate || ltb exchange_rate (10 ^ 6))
      (vault vault_invalid_oracle_price)
  rate ← safe_multiply_divide exchange_rate supply_ex_price borrow_ex_price
  fail_if (rate == 0) (vault vault_invalid_oracle_price)
  ok (if ltb (10 ^ 26) rate then 10 ^ 26 else rate)

-- The ratio at a threshold in three decimals, at an exchange rate.
unfoldable pub ratio_at_threshold : ℕ → ℕ → ℕ → ℕ → Result ℕ
unfolding get_sanitized_exchange_rate
ratio_at_threshold exchange_rate threshold supply_ex_price borrow_ex_price = do
  rate ← get_sanitized_exchange_rate exchange_rate supply_ex_price borrow_ex_price
  scaled ← safe_mul u128_max rate threshold
  check_ratio ← safe_div scaled three_decimals
  safe_multiply_divide check_ratio zero_tick_scaled_ratio rate_output

-- A withdrawal or a borrow is checked against the collateral factor, all else against the liquidation
-- threshold, each at its own rate of the oracle.
abbrev pub is_risky : ℤ → ℤ → Bool
is_risky new_col new_debt = is_neg new_col || is_pos new_debt

unfoldable pub check_if_position_safe :
    ℕ → ℕ → OperateMemoryVars → ℕ → ℕ → ℕ → ℕ → ℤ → ℤ → Result (Unit {0})
unfolding ratio_at_threshold
check_if_position_safe exchange_rate_liquidate exchange_rate_operate m collateral_factor
      liquidation_threshold supply_ex_price borrow_ex_price new_col new_debt =
    do
      let risky = is_risky new_col new_debt
      check_ratio ←
          ratio_at_threshold (if risky then exchange_rate_operate else exchange_rate_liquidate)
            (if risky then collateral_factor else liquidation_threshold) supply_ex_price
            borrow_ex_price
      (tick, _) ← get_tick_at_ratio check_ratio
      fail_if (ltb_ℤ tick m.tick) (
          vault
            (if risky then vault_position_above_cf else vault_position_above_liquidation_threshold))

-- `saturating_sub` is the subtraction of ℕ.
unfoldable pub check_if_withdrawal_safe_for_withdrawal_gap :
    ℤ → ℕ → ℤ → ℕ → UserSupplyPosition → Result (Unit {0})
check_if_withdrawal_safe_for_withdrawal_gap now withdrawal_gap new_col liquidity_ex_price p =
    if withdrawal_gap == 0 then ok tt else (do
      (limit, supplied) ← calc_withdrawal_limit_before_operate now p
      if limit == 0 then ok tt else (do
        magnitude ← Signed.abs i128_max new_col
        withdrawn ← cast_to_unsigned u128_max magnitude
        scaled ← safe_mul u128_max withdrawn exchange_prices_precision
        user_withdrawal ← safe_div scaled liquidity_ex_price
        usable ← safe_sub three_decimals withdrawal_gap
        part ← safe_mul u128_max supplied usable
        available_withdrawal ← safe_div part three_decimals
        fail_if (ltb (available_withdrawal - limit) user_withdrawal)
            (vault vault_withdraw_more_than_operate_limit)))

unfoldable pub check_if_ratio_safe_for_deposit :
    OperateMemoryVars → OldState → ℕ → Result (Unit {0})
unfolding get_new_ratio get_old_ratio
check_if_ratio_safe_for_deposit m old new_net_debt_raw = do
  new_ratio ← get_new_ratio new_net_debt_raw m
  old_ratio ← get_old_ratio old
  fail_if (ltb old_ratio new_ratio) (vault vault_invalid_payback_or_deposit)

-- `unsigned_abs` of an i128; `i128::MIN` stands for the whole amount.
abbrev pub is_invalid_amount : ℤ → ℕ → Bool
is_invalid_amount amount decimals =
    (not (nat_abs amount == 0)
      && ltb (nat_abs amount) (
          if leb lower_decimals_operate decimals
          then min_operate
          else min_operate_lower_decimals_amount))
    || (leb (nat_abs amount) i128_max && ltb max_operate (nat_abs amount))

unfoldable pub check_if_amount_is_valid : ℤ → ℕ → Result (Unit {0})
check_if_amount_is_valid amount decimals =
    fail_if (is_invalid_amount amount decimals) (vault vault_invalid_operate_amount)

unfoldable pub verify_operate_amounts : ℤ → ℤ → ℕ → ℕ → Result (Unit {0})
unfolding check_if_amount_is_valid
verify_operate_amounts new_col new_debt col_decimals debt_decimals = do
  fail_if (nat_abs new_col == 0 && nat_abs new_debt == 0) (vault vault_invalid_operate_amount)
  check_if_amount_is_valid new_col col_decimals
  check_if_amount_is_valid new_debt debt_decimals
