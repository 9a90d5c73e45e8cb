-- ===== src/Vaults/Liquidation/Paid/Tests.antt =====
-- A whole liquidation of one round, at a price of the debt above 1.
use fluid_solana_programs.Base.{◌≡◌, refl, false}
use fluid_solana_programs.Base.Int.{pos, negsuc}
use fluid_solana_programs.Base.Result.{ok}
use fluid_solana_programs.Vaults.Constants.{initial_branch_debt_factor}
use fluid_solana_programs.Vaults.Tick
use fluid_solana_programs.Vaults.Tick.{set_liquidated}
use fluid_solana_programs.Vaults.VaultState.{VaultState, update_state_at_liq_end}
use fluid_solana_programs.Vaults.Liquidation.Loop.{Liquidating}
use fluid_solana_programs.Vaults.Liquidation.Invariant.{here}
use fluid_solana_programs.Vaults.Liquidation.Entry.{starting, begin_liquidate, start_rounds, settle}
use fluid_solana_programs.Vaults.Liquidation.Tests.{
  top, only_top, only_root, no_debt, liquidating, ended, round_ends, debt_of_top,
}
use fluid_solana_programs.Vaults.Liquidation.Paid.{Run, looped, liquidation-IsFair}
use fluid_solana_programs.Vaults.Liquidation.Paid.Amounts.{IsReduced, IsFair}

abbrev one_tick : VaultState
one_tick = record {
  vault_id = 1;
  branch_liquidated = 0;
  topmost_tick = pos 0;
  current_branch_id = 1;
  total_branch_id = 1;
  total_supply = 2000000000000;
  total_borrow = 1000000000000;
  total_positions = 1;
  absorbed_debt_amount = 0;
  absorbed_col_amount = 0;
  absorbed_dust_debt = 0;
  liquidity_supply_exchange_price = 1000000000000;
  liquidity_borrow_exchange_price = 1000000000000;
  vault_supply_exchange_price = 1000000000000;
  vault_borrow_exchange_price = 1100000000000;
  next_position_id = 2;
  last_update_timestamp = 0;
}

abbrev after_rounds : VaultState
after_rounds = update_state_at_liq_end ended.tick_info.tick ended.branch.id one_tick

abbrev settled : VaultState
settled = record after_rounds { total_supply = 1999899500000; total_borrow = 999900000000 }

begins :
    begin_liquidate 9 1100000000000 false (pos 110000000) one_tick
    ≡ ok (starting 100000000 one_tick, one_tick)
unfolding begin_liquidate fluid_solana_programs.Vaults.Common.get_minimum_debt
    fluid_solana_programs.Math.Casting.cast_to_signed
    fluid_solana_programs.Vaults.Common.scale_amounts fluid_solana_programs.Vaults.Common.get_scale
    fluid_solana_programs.Math.Signed.safe_mul fluid_solana_programs.Math.Casting.cast_to_unsigned
    fluid_solana_programs.Math.SafeMath.safe_mul fluid_solana_programs.Math.SafeMath.safe_div
begins = refl

starts :
    start_rounds 5 (negsuc 9) only_top no_debt only_root (starting 100000000 one_tick) one_tick
    ≡ ok liquidating
unfolding start_rounds fluid_solana_programs.Vaults.Liquidation.Entry.first_ratio
    fluid_solana_programs.Math.Tick.get_ratio_at_tick
    fluid_solana_programs.Math.Tick.ratio_of_factor
starts = refl

runs :
    Run 5 1005000000000000 9
      (negsuc 9)
      only_top
      no_debt
      only_root
      (starting 100000000 one_tick)
      one_tick
      ended.current_data
      after_rounds
runs =
    looped 1000000000000
      (Tick.store (pos 0) (set_liquidated 1 initial_branch_debt_factor top) only_top) refl starts
      here debt_of_top round_ends

settles :
    settle 1100000000000 1000000000000 9 6
      (pos 110000000)
      900000000000
      ended.current_data
      after_rounds
    ≡ ok (110000000, 100500, settled)
unfolding settle fluid_solana_programs.Vaults.Liquidation.Entry.unscaled
    fluid_solana_programs.Math.Casting.cast_to_unsigned
    fluid_solana_programs.Vaults.CurrentLiquidity.get_actual_amounts
    fluid_solana_programs.Vaults.CurrentLiquidity.get_normal_debt_liq
    fluid_solana_programs.Vaults.CurrentLiquidity.get_normal_col_liq
    fluid_solana_programs.Math.SafeMath.safe_mul fluid_solana_programs.Math.SafeMath.safe_div_ceil
    fluid_solana_programs.Vaults.CurrentLiquidity.limit_amounts
    fluid_solana_programs.Vaults.Common.unscale_amounts
    fluid_solana_programs.Vaults.Common.unscale_amounts_up
    fluid_solana_programs.Math.Signed.safe_div fluid_solana_programs.Math.Signed.safe_div_ceil
    fluid_solana_programs.Vaults.VaultState.reduce_total_supply
    fluid_solana_programs.Vaults.VaultState.reduce_total_borrow
    fluid_solana_programs.Vaults.VaultState.update_state_at_liq_end ended
    fluid_solana_programs.Vaults.Liquidation.Loop.liquidate_round
    fluid_solana_programs.Vaults.Liquidation.Loop.add_debt
    fluid_solana_programs.Vaults.Liquidation.Loop.take_debt
    fluid_solana_programs.Math.SafeMath.safe_add fluid_solana_programs.Math.SafeMath.safe_div
    fluid_solana_programs.Vaults.Liquidation.Loop.find_ref
    fluid_solana_programs.Vaults.Liquidation.Loop.find_next_tick
    fluid_solana_programs.Vaults.TickHasDebt.fetch_next_tick_liquidate
    fluid_solana_programs.Vaults.TickHasDebt.Indices.get_tick_indices
    fluid_solana_programs.Vaults.TickHasDebt.Indices.get_array_index_for_tick
    fluid_solana_programs.Math.Signed.safe_sub
    fluid_solana_programs.Vaults.TickHasDebt.Indices.get_tick_indices_for_array
    fluid_solana_programs.Vaults.TickHasDebt.Indices.get_first_tick_for_array_index
    fluid_solana_programs.Math.Signed.safe_mul fluid_solana_programs.Math.Signed.safe_add
    fluid_solana_programs.Vaults.TickHasDebt.search_liquidate
    fluid_solana_programs.Vaults.TickHasDebt.or_below_threshold
    fluid_solana_programs.Vaults.TickHasDebt.fetch_in_array
    fluid_solana_programs.Vaults.TickHasDebt.or_lower
    fluid_solana_programs.Vaults.TickHasDebt.has_bits
    fluid_solana_programs.Vaults.TickHasDebt.any_byte
    fluid_solana_programs.Vaults.TickHasDebt.clear_bits
    fluid_solana_programs.Vaults.TickHasDebt.Bytes.keep_lower
    fluid_solana_programs.Vaults.TickHasDebt.Indices.get_first_tick_for_map_in_array
    fluid_solana_programs.Vaults.Liquidation.Loop.load_ref
    fluid_solana_programs.Vaults.Liquidation.set_branch_data_in_memory
    fluid_solana_programs.Math.Tick.get_ratio_at_tick
    fluid_solana_programs.Math.Tick.ratio_of_factor
    fluid_solana_programs.Vaults.Liquidation.Loop.liquidate_to_ref
    fluid_solana_programs.Vaults.Liquidation.Loop.step_amounts
    fluid_solana_programs.Vaults.CurrentLiquidity.get_debt_liquidated
    fluid_solana_programs.Math.SafeMath.safe_sub
    fluid_solana_programs.Math.U256.MulDiv.safe_multiply_divide
    fluid_solana_programs.Math.U256.MulDiv.safe_multiply_divide_result
    fluid_solana_programs.Math.U256.MulDiv.div fluid_solana_programs.Math.U256.MulDiv.small_division
    fluid_solana_programs.Vaults.Liquidation.Loop.finish
    fluid_solana_programs.Vaults.Common.get_minimum_branch_debt
    fluid_solana_programs.Math.Casting.cast_to_signed
    fluid_solana_programs.Vaults.Common.scale_amounts fluid_solana_programs.Vaults.Common.get_scale
    fluid_solana_programs.Vaults.Liquidation.end_liquidate
    fluid_solana_programs.Vaults.Liquidation.last_amounts
    fluid_solana_programs.Vaults.CurrentLiquidity.get_final_ratio
    fluid_solana_programs.Vaults.Liquidation.final_tick
    fluid_solana_programs.Math.Tick.get_tick_at_ratio
    fluid_solana_programs.Vaults.Branch.get_tick_partials
    fluid_solana_programs.Vaults.CurrentLiquidity.check_is_ref_partials_safe_for_tick
    fluid_solana_programs.Vaults.CurrentLiquidity.get_debt_factor
    fluid_solana_programs.Vaults.CurrentLiquidity.update_totals
    fluid_solana_programs.Vaults.Liquidation.update_branch_debt_factor
    fluid_solana_programs.Math.Bn.mul_div_big_number fluid_solana_programs.Math.Bn.lower_exponent
    fluid_solana_programs.Math.Bn.excess_bits
    fluid_solana_programs.Vaults.Branch.update_state_at_liq_end
    fluid_solana_programs.Math.Casting.cast
    fluid_solana_programs.Vaults.CurrentLiquidity.set_partials
    fluid_solana_programs.Vaults.Branch.set_branch_debt
settles = refl

liquidation-IsFair_example :
    IsReduced ended.current_data.total_debt_liq ended.current_data.total_col_liq one_tick settled
    × IsFair 1100000000000 1000000000000 9 6 900000000000 ended.current_data 110000000 100500
liquidation-IsFair_example =
    liquidation-IsFair 1100000000000 1000000000000 9 6 (pos 110000000) 900000000000 5 false
      1005000000000000 (negsuc 9) only_top no_debt only_root one_tick begins runs settles
