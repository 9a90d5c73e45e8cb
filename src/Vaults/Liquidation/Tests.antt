-- ===== src/Vaults/Liquidation/Tests.antt =====
-- A round of a liquidation that takes the debt of one tick.
use fluid_solana_programs.Base.{ℕ, ◌+◌, ◌^◌, ◌≤◌, ◌≡◌, refl, true, ◌==◌, if◌then◌else◌, none, some}
use fluid_solana_programs.Base.Int.{pos, negsuc, eqb_ℤ}
use fluid_solana_programs.Base.Result.{Result, ok, err, ◌>>=◌}
use fluid_solana_programs.Vaults.Constants.{initial_branch_debt_factor}
use fluid_solana_programs.Vaults.TickHasDebt.{TickHasDebtAccounts}
use fluid_solana_programs.Vaults.TickHasDebt.Indices.{cold_tick}
use fluid_solana_programs.Vaults.Tick
use fluid_solana_programs.Vaults.Tick.{Tick, TickAccounts, set_liquidated}
use fluid_solana_programs.Vaults.Branch.{Branch, BranchAccounts}
use fluid_solana_programs.Vaults.CurrentLiquidity.{CurrentLiquidity}
use fluid_solana_programs.Vaults.Liquidation.{no_branch, set_branch_data_in_memory, end_liquidate}
use fluid_solana_programs.Vaults.Liquidation.Loop.{
  Liquidating, Round, again, done, take_debt, add_debt, find_next_tick, load_ref, find_ref,
  step_amounts, finish, liquidate_to_ref, liquidate_round,
}
use fluid_solana_programs.Vaults.Liquidation.Invariant.{here, liquidation-balanced}

abbrev pub top : Tick
top = record {
  vault_id = 1;
  tick = pos 0;
  is_liquidated = 0;
  total_ids = 1;
  raw_debt = 1000000000000;
  is_fully_liquidated = 0;
  liquidation_branch_id = 0;
  debt_factor = 0;
}

abbrev pub only_top : TickAccounts
only_top tick = if eqb_ℤ tick (pos 0) then some top else none

abbrev pub no_debt : TickHasDebtAccounts
no_debt k = some (record { vault_id = 1; index = k; children_bits = λ m b. 0 })

abbrev root : Branch
root = record {
  vault_id = 1;
  branch_id = 1;
  status = 0;
  minima_tick = cold_tick;
  minima_tick_partials = 0;
  debt_liquidity = 0;
  debt_factor = 0;
  connected_branch_id = 0;
  connected_minima_tick = cold_tick;
}

abbrev pub only_root : BranchAccounts
only_root id = if id == 1 then some root else none

-- 100000000 is to be liquidated, of the debt of tick 0.
abbrev start : CurrentLiquidity
start = record {
  debt_remaining = 100000000;
  debt = 0;
  col = 0;
  total_debt_liq = 0;
  total_col_liq = 0;
  tick = pos 0;
  ratio = 2 ^ 48;
  tick_status = 1;
  ref_tick = pos 0;
  ref_ratio = 0;
  ref_tick_status = 0;
}

abbrev pub liquidating : Liquidating
liquidating = record {
  current_data = start;
  tick_info = record { tick = pos 0; partials = 0 };
  branch = set_branch_data_in_memory root no_branch;
  next_tick = pos 0;
  is_first_iteration = true;
  tick_accounts = only_top;
  tick_has_debt_accounts = no_debt;
  branch_accounts = only_root;
}

abbrev amounts : Round → Result (ℕ × ℕ × ℕ × ℕ)
amounts (again s) = ok (0, 0, 0, 0)
amounts (done s) = ok (
  s.current_data.total_debt_liq, s.current_data.total_col_liq, s.current_data.debt,
  s.tick_info.partials,
)

test_round :
    (liquidate_round 1005000000000000 9 (negsuc 9) liquidating >>= amounts)
    ≡ ok (100000000, 100500000, 999900000000, 357949)
unfolding liquidate_round add_debt take_debt fluid_solana_programs.Math.SafeMath.safe_add
    fluid_solana_programs.Math.SafeMath.safe_mul fluid_solana_programs.Math.SafeMath.safe_div
    find_ref find_next_tick fluid_solana_programs.Vaults.TickHasDebt.fetch_next_tick_liquidate
    fluid_solana_programs.Vaults.TickHasDebt.Indices.get_tick_indices
    fluid_solana_programs.Vaults.TickHasDebt.Indices.get_array_index_for_tick
    fluid_solana_programs.Math.Signed.safe_sub
    fluid_solana_programs.Vaults.TickHasDebt.Indices.get_tick_indices_for_array
    fluid_solana_programs.Vaults.TickHasDebt.Indices.get_first_tick_for_array_index
    fluid_solana_programs.Math.Signed.safe_mul fluid_solana_programs.Math.Signed.safe_add
    fluid_solana_programs.Math.Casting.cast_to_unsigned
    fluid_solana_programs.Vaults.TickHasDebt.search_liquidate
    fluid_solana_programs.Vaults.TickHasDebt.or_below_threshold
    fluid_solana_programs.Vaults.TickHasDebt.fetch_in_array
    fluid_solana_programs.Vaults.TickHasDebt.or_lower
    fluid_solana_programs.Vaults.TickHasDebt.has_bits
    fluid_solana_programs.Vaults.TickHasDebt.any_byte
    fluid_solana_programs.Vaults.TickHasDebt.clear_bits
    fluid_solana_programs.Vaults.TickHasDebt.Bytes.keep_lower
    fluid_solana_programs.Vaults.TickHasDebt.Indices.get_first_tick_for_map_in_array load_ref
    set_branch_data_in_memory fluid_solana_programs.Math.Tick.get_ratio_at_tick
    fluid_solana_programs.Math.Tick.ratio_of_factor liquidate_to_ref step_amounts
    fluid_solana_programs.Vaults.CurrentLiquidity.get_debt_liquidated
    fluid_solana_programs.Math.SafeMath.safe_sub
    fluid_solana_programs.Math.U256.MulDiv.safe_multiply_divide
    fluid_solana_programs.Math.U256.MulDiv.safe_multiply_divide_result
    fluid_solana_programs.Math.U256.MulDiv.div fluid_solana_programs.Math.U256.MulDiv.small_division
    finish fluid_solana_programs.Vaults.Common.get_minimum_branch_debt
    fluid_solana_programs.Math.Casting.cast_to_signed
    fluid_solana_programs.Vaults.Common.scale_amounts fluid_solana_programs.Vaults.Common.get_scale
    end_liquidate fluid_solana_programs.Vaults.Liquidation.last_amounts
    fluid_solana_programs.Vaults.CurrentLiquidity.get_final_ratio
    fluid_solana_programs.Vaults.Liquidation.final_tick
    fluid_solana_programs.Math.Tick.get_tick_at_ratio
    fluid_solana_programs.Vaults.Branch.get_tick_partials
    fluid_solana_programs.Vaults.CurrentLiquidity.check_is_ref_partials_safe_for_tick
    fluid_solana_programs.Vaults.CurrentLiquidity.get_debt_factor
    fluid_solana_programs.Vaults.CurrentLiquidity.update_totals
    fluid_solana_programs.Vaults.Liquidation.update_branch_debt_factor
    fluid_solana_programs.Math.Bn.mul_div_big_number fluid_solana_programs.Math.Bn.lower_exponent
    fluid_solana_programs.Math.Bn.excess_bits
    fluid_solana_programs.Vaults.Branch.update_state_at_liq_end
    fluid_solana_programs.Math.Casting.cast
    fluid_solana_programs.Vaults.CurrentLiquidity.set_partials
    fluid_solana_programs.Vaults.Branch.set_branch_debt
test_round = refl

-- The state after the round.
abbrev end_of : Result Round → Liquidating
end_of (err code) = liquidating
end_of (ok (again s)) = s
end_of (ok (done s)) = s

unfoldable pub ended : Liquidating
ended = end_of (liquidate_round 1005000000000000 9 (negsuc 9) liquidating)

pub round_ends : liquidate_round 1005000000000000 9 (negsuc 9) liquidating ≡ ok (done ended)
unfolding ended liquidate_round add_debt take_debt fluid_solana_programs.Math.SafeMath.safe_add
    fluid_solana_programs.Math.SafeMath.safe_mul fluid_solana_programs.Math.SafeMath.safe_div
    find_ref find_next_tick fluid_solana_programs.Vaults.TickHasDebt.fetch_next_tick_liquidate
    fluid_solana_programs.Vaults.TickHasDebt.Indices.get_tick_indices
    fluid_solana_programs.Vaults.TickHasDebt.Indices.get_array_index_for_tick
    fluid_solana_programs.Math.Signed.safe_sub
    fluid_solana_programs.Vaults.TickHasDebt.Indices.get_tick_indices_for_array
    fluid_solana_programs.Vaults.TickHasDebt.Indices.get_first_tick_for_array_index
    fluid_solana_programs.Math.Signed.safe_mul fluid_solana_programs.Math.Signed.safe_add
    fluid_solana_programs.Math.Casting.cast_to_unsigned
    fluid_solana_programs.Vaults.TickHasDebt.search_liquidate
    fluid_solana_programs.Vaults.TickHasDebt.or_below_threshold
    fluid_solana_programs.Vaults.TickHasDebt.fetch_in_array
    fluid_solana_programs.Vaults.TickHasDebt.or_lower
    fluid_solana_programs.Vaults.TickHasDebt.has_bits
    fluid_solana_programs.Vaults.TickHasDebt.any_byte
    fluid_solana_programs.Vaults.TickHasDebt.clear_bits
    fluid_solana_programs.Vaults.TickHasDebt.Bytes.keep_lower
    fluid_solana_programs.Vaults.TickHasDebt.Indices.get_first_tick_for_map_in_array load_ref
    set_branch_data_in_memory fluid_solana_programs.Math.Tick.get_ratio_at_tick
    fluid_solana_programs.Math.Tick.ratio_of_factor liquidate_to_ref step_amounts
    fluid_solana_programs.Vaults.CurrentLiquidity.get_debt_liquidated
    fluid_solana_programs.Math.SafeMath.safe_sub
    fluid_solana_programs.Math.U256.MulDiv.safe_multiply_divide
    fluid_solana_programs.Math.U256.MulDiv.safe_multiply_divide_result
    fluid_solana_programs.Math.U256.MulDiv.div fluid_solana_programs.Math.U256.MulDiv.small_division
    finish fluid_solana_programs.Vaults.Common.get_minimum_branch_debt
    fluid_solana_programs.Math.Casting.cast_to_signed
    fluid_solana_programs.Vaults.Common.scale_amounts fluid_solana_programs.Vaults.Common.get_scale
    end_liquidate fluid_solana_programs.Vaults.Liquidation.last_amounts
    fluid_solana_programs.Vaults.CurrentLiquidity.get_final_ratio
    fluid_solana_programs.Vaults.Liquidation.final_tick
    fluid_solana_programs.Math.Tick.get_tick_at_ratio
    fluid_solana_programs.Vaults.Branch.get_tick_partials
    fluid_solana_programs.Vaults.CurrentLiquidity.check_is_ref_partials_safe_for_tick
    fluid_solana_programs.Vaults.CurrentLiquidity.get_debt_factor
    fluid_solana_programs.Vaults.CurrentLiquidity.update_totals
    fluid_solana_programs.Vaults.Liquidation.update_branch_debt_factor
    fluid_solana_programs.Math.Bn.mul_div_big_number fluid_solana_programs.Math.Bn.lower_exponent
    fluid_solana_programs.Math.Bn.excess_bits
    fluid_solana_programs.Vaults.Branch.update_state_at_liq_end
    fluid_solana_programs.Math.Casting.cast
    fluid_solana_programs.Vaults.CurrentLiquidity.set_partials
    fluid_solana_programs.Vaults.Branch.set_branch_debt
round_ends = refl

pub debt_of_top :
    take_debt liquidating
    ≡ ok (
      1000000000000,
      Tick.store (pos 0) (set_liquidated 1 initial_branch_debt_factor top) only_top,
    )
unfolding take_debt set_branch_data_in_memory
debt_of_top = refl

liquidation-balanced_example :
    (ended.current_data.total_debt_liq + ended.current_data.debt ≡ 0 + 0 + 0 + 1000000000000)
    × (ended.current_data.total_debt_liq ≤ 0 + 100000000)
liquidation-balanced_example =
    liquidation-balanced 1005000000000000 9 (negsuc 9) 1000000000000
      (Tick.store (pos 0) (set_liquidated 1 initial_branch_debt_factor top) only_top) here
      debt_of_top round_ends
