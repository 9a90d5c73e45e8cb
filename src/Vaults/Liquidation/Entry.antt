-- ===== src/Vaults/Liquidation/Entry.antt =====
-- `liquidate` of `programs/vaults/src/module/user.rs` around its loop: the checks and amounts before the
-- first round, after bad debt was absorbed, and the amounts that are paid after the last.
use fluid_solana_programs.Base.{ℕ, ltb, ◌==◌, if◌then◌else◌, Bool, true, ◌&&◌}
use fluid_solana_programs.Base.Int.{ℤ, pos, ltb_ℤ, eqb_ℤ, ◌+ℤ◌}
use fluid_solana_programs.Base.Errors.{
  vault, vault_invalid_liquidation, vault_invalid_liquidation_amt, vault_liquidation_result,
  vault_excess_slippage_liquidation,
}
use fluid_solana_programs.Base.Result.{Result, ok, ◌>>=◌, ◌>>◌, fail_if}
use fluid_solana_programs.Math.Words.{u128_max, i128_max}
use fluid_solana_programs.Math.Casting.{cast_to_signed, cast_to_unsigned}
use fluid_solana_programs.Math.SafeMath.{safe_mul, safe_div}
use fluid_solana_programs.Math.Tick.{get_ratio_at_tick}
use fluid_solana_programs.Liquidity.Constants.{Pubkey, exchange_prices_precision}
use fluid_solana_programs.Vaults.Constants.{billion, rate_output}
use fluid_solana_programs.Vaults.Common.{get_minimum_debt, unscale_amounts, unscale_amounts_up}
use fluid_solana_programs.Vaults.TickHasDebt.{TickHasDebtAccounts}
use fluid_solana_programs.Vaults.TickHasDebt.Indices.{cold_tick}
use fluid_solana_programs.Vaults.Tick.{TickAccounts}
use fluid_solana_programs.Vaults.Branch
use fluid_solana_programs.Vaults.Branch.{BranchAccounts, get_current_partials_ratio}
use fluid_solana_programs.Vaults.CurrentLiquidity.{
  CurrentLiquidity, is_perfect_tick, get_actual_amounts,
}
use fluid_solana_programs.Vaults.VaultState.{
  VaultState, get_tick_status, reduce_total_supply, reduce_total_borrow,
}
use fluid_solana_programs.Vaults.VaultState.Dust.{absorb_dust_amount_for_liquidate}
use fluid_solana_programs.Vaults.Liquidation.{no_branch, set_branch_data_in_memory}
use fluid_solana_programs.Vaults.Liquidation.Loop.{Liquidating}

-- `CurrentLiquidity::default()` with the debt to liquidate, at the topmost tick.
abbrev pub starting : ℕ → VaultState → CurrentLiquidity
starting debt_remaining v = record {
  debt_remaining = debt_remaining;
  debt = 0;
  col = 0;
  total_debt_liq = 0;
  total_col_liq = 0;
  tick = v.topmost_tick;
  ratio = 0;
  tick_status = get_tick_status v;
  ref_tick = pos 0;
  ref_ratio = 0;
  ref_tick_status = 0;
}

-- From `debt_amt`, in nine decimals, to the debt that remains to be liquidated; `absorb` takes the debt
-- that was absorbed earlier first.
unfoldable pub begin_liquidate :
    ℕ → ℕ → Bool → ℤ → VaultState → Result (CurrentLiquidity × VaultState)
begin_liquidate borrow_decimals borrow_ex_price absorb debt_amt v = do
  minimum ← get_minimum_debt borrow_decimals
  signed ← cast_to_signed i128_max minimum
  fail_if (ltb_ℤ debt_amt signed) (vault vault_invalid_liquidation_amt)
  amount ← cast_to_unsigned u128_max debt_amt
  scaled ← safe_mul u128_max amount exchange_prices_precision
  debt_remaining ← safe_div scaled borrow_ex_price
  least ← safe_div v.total_borrow billion
  fail_if (ltb debt_remaining least) (vault vault_invalid_liquidation_amt)
  let d = starting debt_remaining v
  if absorb then absorb_dust_amount_for_liquidate d v else ok (d, v)

abbrev pub enters_loop : ℤ → CurrentLiquidity → Bool
enters_loop liquidation_tick d = ltb_ℤ liquidation_tick d.tick && ltb 0 d.debt_remaining

-- The ratio, the partials and the next tick of the first round. `ADDRESS_DEAD` is the default key; for
-- it the amounts are reported as an error.
unfoldable pub first_ratio : Pubkey → ℤ → ℕ → CurrentLiquidity → Result (ℕ × ℕ × ℤ)
unfolding ◌+ℤ◌
first_ratio to liquidation_tick minima_tick_partials d =
    if is_perfect_tick d then (do ratio ← get_ratio_at_tick d.tick; ok (ratio, 0, d.tick)) else (do
      at_tick ← get_ratio_at_tick d.tick
      (ratio, partials) ← get_current_partials_ratio minima_tick_partials at_tick
      fail_if (eqb_ℤ (liquidation_tick +ℤ pos 1) d.tick && partials == 1)
          (vault (if to == 0 then vault_liquidation_result else vault_invalid_liquidation))
      ok (ratio, partials, cold_tick))

-- The state before the first round.
unfoldable pub start_rounds :
    Pubkey
    → ℤ
    → TickAccounts
    → TickHasDebtAccounts
    → BranchAccounts
    → CurrentLiquidity
    → VaultState
    → Result Liquidating
start_rounds to liquidation_tick ticks bitmap branches d v = do
  branch_0 ← Branch.load branches v.current_branch_id
  let branch = set_branch_data_in_memory branch_0 no_branch
  (ratio, partials, next_tick) ←
      first_ratio to liquidation_tick branch.branch_data.minima_tick_partials d
  ok (record {
    current_data = record d { ratio = ratio };
    tick_info = record { tick = d.tick; partials = partials };
    branch = branch;
    next_tick = next_tick;
    is_first_iteration = true;
    tick_accounts = ticks;
    tick_has_debt_accounts = bitmap;
    branch_accounts = branches;
  })

-- The debt to pay and the collateral to receive, in the decimals of their tokens.
unfoldable pub unscaled : ℕ → ℕ → ℕ → ℕ → Result (ℕ × ℕ)
unscaled borrow_decimals supply_decimals debt col = do
  signed_debt ← cast_to_signed i128_max debt
  debt_up ← unscale_amounts_up signed_debt borrow_decimals
  actual_debt_amt ← cast_to_unsigned u128_max debt_up
  signed_col ← cast_to_signed i128_max col
  col_down ← unscale_amounts signed_col supply_decimals
  actual_col_amt ← cast_to_unsigned u128_max col_down
  ok (actual_debt_amt, actual_col_amt)

-- The amounts after the loop, with the limit on slippage, and the totals of the vault.
unfoldable pub settle :
    ℕ → ℕ → ℕ → ℕ → ℤ → ℕ → CurrentLiquidity → VaultState → Result (ℕ × ℕ × VaultState)
settle borrow_ex_price supply_ex_price borrow_decimals supply_decimals debt_amt col_per_unit_debt d
      v =
    do
      amount ← cast_to_unsigned u128_max debt_amt
      (debt, col) ← get_actual_amounts borrow_ex_price supply_ex_price amount d
      (actual_debt_amt, actual_col_amt) ← unscaled borrow_decimals supply_decimals debt col
      scaled ← safe_mul u128_max actual_col_amt rate_output
      per_unit ← safe_div scaled actual_debt_amt
      fail_if (ltb per_unit col_per_unit_debt) (vault vault_excess_slippage_liquidation)
      less_supply ← reduce_total_supply d.total_col_liq v
      less_borrow ← reduce_total_borrow d.total_debt_liq less_supply
      ok (actual_debt_amt, actual_col_amt, less_borrow)
