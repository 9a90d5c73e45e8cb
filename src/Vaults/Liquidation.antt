-- ===== src/Vaults/Liquidation.antt =====
-- The liquidation of `programs/vaults`: `BranchMemoryVars` of `state/structs.rs` and `utils/liquidate.rs`.
-- The oracle's exchange rate is an argument. The children hold the loop of `liquidate` of
-- `module/user.rs`.
pub mod Balance
pub mod Loop
pub mod Steps
pub mod Invariant
pub mod Entry
pub mod Paid
mod Tests
use fluid_solana_programs.Base.{ℕ, ◌^◌, ltb, leb, ◌==◌, if◌then◌else◌, ◌&&◌, ◌||◌}
use fluid_solana_programs.Base.Int.{ℤ, pos, ltb_ℤ, eqb_ℤ}
use fluid_solana_programs.Base.Errors.{vault, vault_branch_debt_too_low, vault_invalid_oracle_price}
use fluid_solana_programs.Base.Result.{Result, ok, err, ◌>>=◌, ◌>>◌, fail_if}
use fluid_solana_programs.Math.Words.{u128_max, i32_max}
use fluid_solana_programs.Math.SafeMath.{safe_add, safe_mul, safe_div}
use fluid_solana_programs.Math.Signed
use fluid_solana_programs.Math.U256.MulDiv.{
  safe_multiply_divide, safe_multiply_divide_result, get_ceil,
}
use fluid_solana_programs.Math.Bn.{mul_div_big_number}
use fluid_solana_programs.Math.Tick.{get_tick_at_ratio, get_ratio_at_tick, zero_tick_scaled_ratio}
use fluid_solana_programs.Vaults.Constants.{
  x30, four_decimals, three_decimals, rate_output, initial_branch_debt_factor,
}
use fluid_solana_programs.Vaults.TickHasDebt.Indices.{cold_tick}
use fluid_solana_programs.Vaults.Branch.{Branch, get_tick_partials, get_current_partials_ratio}
use fluid_solana_programs.Vaults.CurrentLiquidity.{
  CurrentLiquidity, TickMemoryVars, get_final_ratio, is_ref_tick_liquidated, set_partials, set_tick,
  check_is_ref_partials_safe_for_tick, get_debt_factor, update_totals,
}

pub record BranchState : Type 0 where
  pub minima_tick : ℤ
  pub minima_tick_partials : ℕ
  pub debt_liquidity : ℕ
  pub debt_factor : ℕ
  pub connected_branch_id : ℕ
  pub connected_minima_tick : ℤ

pub record BranchMemoryVars : Type 0 where
  pub id : ℕ
  pub branch_data : BranchState
  pub debt_factor : ℕ
  pub minima_tick : ℤ
  pub base_branch_data : BranchState

abbrev pub state_of : Branch → BranchState
state_of b = record {
  minima_tick = b.minima_tick;
  minima_tick_partials = b.minima_tick_partials;
  debt_liquidity = b.debt_liquidity;
  debt_factor = b.debt_factor;
  connected_branch_id = b.connected_branch_id;
  connected_minima_tick = b.connected_minima_tick;
}

-- `BranchState::default()` and `BranchMemoryVars::default()`
abbrev pub no_branch_data : BranchState
no_branch_data = record {
  minima_tick = pos 0;
  minima_tick_partials = 0;
  debt_liquidity = 0;
  debt_factor = 0;
  connected_branch_id = 0;
  connected_minima_tick = pos 0;
}

abbrev pub no_branch : BranchMemoryVars
no_branch = record {
  id = 0;
  branch_data = no_branch_data;
  debt_factor = 0;
  minima_tick = pos 0;
  base_branch_data = no_branch_data;
}

unfoldable pub update_branch_to_base_branch : BranchMemoryVars → BranchMemoryVars
update_branch_to_base_branch v = record v {
  id = v.branch_data.connected_branch_id;
  branch_data = v.base_branch_data;
  minima_tick = v.base_branch_data.connected_minima_tick;
}

unfoldable pub get_current_ratio_from_minima_tick : BranchMemoryVars → Result ℕ
get_current_ratio_from_minima_tick v = do
  ratio ← get_ratio_at_tick v.minima_tick
  (current_ratio, _) ← get_current_partials_ratio v.branch_data.minima_tick_partials ratio
  ok current_ratio

unfoldable pub update_branch_debt_factor : ℕ → BranchMemoryVars → Result BranchMemoryVars
update_branch_debt_factor factor v = do
  reduced ← mul_div_big_number v.debt_factor factor
  ok (record v { debt_factor = reduced })

abbrev pub set_base_branch_data : Branch → BranchMemoryVars → BranchMemoryVars
set_base_branch_data b v = record v { base_branch_data = state_of b }

abbrev pub set_branch_data : Branch → BranchMemoryVars → BranchMemoryVars
set_branch_data b v = record v { branch_data = state_of b }

unfoldable pub reset_branch_data : BranchMemoryVars → BranchMemoryVars
reset_branch_data v = record v {
  branch_data = record no_branch_data {
    minima_tick = cold_tick;
    connected_minima_tick = cold_tick;
  };
}

unfoldable pub set_branch_data_in_memory : Branch → BranchMemoryVars → BranchMemoryVars
set_branch_data_in_memory b v = record v {
  id = b.branch_id;
  branch_data = state_of b;
  debt_factor = if b.debt_factor == 0 then initial_branch_debt_factor else b.debt_factor;
  minima_tick = b.connected_minima_tick;
}

-- Where the final ratio of a liquidation is: its tick and its partials.
unfoldable pub final_tick : CurrentLiquidity → ℕ → TickMemoryVars → Result TickMemoryVars
final_tick d final_ratio t = do
  (floor_tick, ratio_one_less) ← get_tick_at_ratio final_ratio
  if ltb_ℤ floor_tick d.ref_tick && t.partials == x30
      then (do
        tick ← Signed.safe_add i32_max floor_tick (pos 2)
        ok (set_tick tick (set_partials 1 t)))
      else (do
        tick ← Signed.safe_add i32_max floor_tick (pos 1)
        let existing_partials =
            if is_ref_tick_liquidated d && eqb_ℤ tick d.ref_tick then t.partials else 0
        partials ← get_tick_partials ratio_one_less final_ratio
        let updated = set_partials partials t
        check_is_ref_partials_safe_for_tick existing_partials updated.partials
        ok (set_tick tick updated))

-- The debt and collateral that the last step liquidates, and the tick where it ends.
unfoldable pub last_amounts :
    ℕ → CurrentLiquidity → TickMemoryVars → ℕ → ℕ → Result (ℕ × ℕ × TickMemoryVars)
last_amounts col_per_debt d t debt_liquidated col_liquidated =
    if leb d.debt_remaining debt_liquidated
    then (do
      col ← safe_multiply_divide d.debt_remaining col_per_debt rate_output
      final_ratio ← get_final_ratio col d.debt_remaining d
      ended ← final_tick d final_ratio t
      ok (d.debt_remaining, col, ended))
    else (do
      tick ← Signed.safe_add i32_max d.ref_tick (pos 1)
      ok (debt_liquidated, col_liquidated, set_partials 1 (set_tick tick t)))

unfoldable pub end_liquidate :
    ℕ
    → ℕ
    → ℕ
    → ℕ
    → CurrentLiquidity
    → TickMemoryVars
    → BranchMemoryVars
    → Result (CurrentLiquidity × TickMemoryVars × BranchMemoryVars)
end_liquidate col_per_debt minimum_branch_debt debt_liquidated col_liquidated d t v = do
  (debt, col, ended) ← last_amounts col_per_debt d t debt_liquidated col_liquidated
  factor ← get_debt_factor debt d
  updated ← update_totals debt col d
  reduced ← update_branch_debt_factor factor v
  fail_if (ltb updated.debt minimum_branch_debt) (vault vault_branch_debt_too_low)
  ok (updated, ended, reduced)

-- The debt per collateral at the vault's exchange prices, of which at most 10^26 is used, and the
-- collateral per debt with the liquidation penalty.
unfoldable pub prices_from_rate : ℕ → ℕ → ℕ → ℕ → Result (ℕ × ℕ)
prices_from_rate exchange_rate supply_ex_price borrow_ex_price liquidation_penalty = do
  fail_if (ltb (10 ^ 24) exchange_rate || exchange_rate == 0) (vault vault_invalid_oracle_price)
  result ← safe_multiply_divide_result exchange_rate supply_ex_price borrow_ex_price
  fail_if (result.quotient == 0) (vault vault_invalid_oracle_price)
  let debt_per_col = if ltb (10 ^ 26) result.quotient then 10 ^ 26 else result.quotient
  rounded_up ← get_ceil result
  raw_col_per_debt ← safe_div (10 ^ 30) rounded_up
  with_penalty ← safe_add u128_max four_decimals liquidation_penalty
  scaled ← safe_mul u128_max raw_col_per_debt with_penalty
  col_per_debt ← safe_div scaled four_decimals
  ok (debt_per_col, col_per_debt)

-- The tick at a threshold in three decimals.
abbrev tick_at_threshold : ℕ → ℕ → Result ℤ
tick_at_threshold ratio threshold = do
  scaled ← safe_mul u128_max ratio threshold
  threshold_ratio ← safe_div scaled three_decimals
  (tick, _) ← get_tick_at_ratio threshold_ratio
  ok tick

-- The collateral per debt, the tick of the liquidation threshold and the one of the maximum limit.
unfoldable pub get_ticks_from_oracle_price : ℕ → ℕ → ℕ → ℕ → ℕ → ℕ → Result (ℕ × ℤ × ℤ)
get_ticks_from_oracle_price exchange_rate supply_ex_price borrow_ex_price liquidation_penalty
      liquidation_threshold liquidation_max_limit =
    do
      (debt_per_col, col_per_debt) ←
          prices_from_rate exchange_rate supply_ex_price borrow_ex_price liquidation_penalty
      liquidation_ratio ← safe_multiply_divide debt_per_col zero_tick_scaled_ratio rate_output
      liquidation_tick ← tick_at_threshold liquidation_ratio liquidation_threshold
      max_tick ← tick_at_threshold liquidation_ratio liquidation_max_limit
      ok (col_per_debt, liquidation_tick, max_tick)
