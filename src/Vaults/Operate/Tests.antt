-- ===== src/Vaults/Operate/Tests.antt =====
-- Positions that are changed, and the theorems on them.
use fluid_solana_programs.Base.{
  ℕ, ◌+◌, ◌*◌, ◌^◌, ◌<◌, ◌≡◌, ◌↔◌, refl, arith, ◌==◌, if◌then◌else◌, Option, some, none,
}
use fluid_solana_programs.Base.Int.{ℤ, pos, negsuc}
use fluid_solana_programs.Base.Result.{Result, ok, err, Ensures}
use fluid_solana_programs.Vaults.Constants.{initial_branch_debt_factor}
use fluid_solana_programs.Vaults.TickHasDebt.{TickHasDebtArray, TickHasDebtAccounts}
use fluid_solana_programs.Vaults.TickHasDebt.Places.{tick_at}
use fluid_solana_programs.Vaults.TickSet.{IsArray}
use fluid_solana_programs.Vaults.TickIdLiquidation.{TickIdLiquidation}
use fluid_solana_programs.Vaults.Tick.{Tick}
use fluid_solana_programs.Vaults.Branch.{Branch, BranchAccounts}
use fluid_solana_programs.Vaults.Operate.{OperateMemoryVars, verify_operate_amounts}
use fluid_solana_programs.Vaults.Operate.Checks.{AreAccepted, verify_operate_amounts-AreAccepted}
use fluid_solana_programs.Vaults.Operate.Latest.{fetch_latest_position}
use fluid_solana_programs.Vaults.Operate.Latest.Chain.{
  IsRanked, IsLatest, fetch_latest_position-IsLatest,
}
use fluid_solana_programs.Vaults.Operate.AddDebt.{TickState, add_debt_to_tick}
use fluid_solana_programs.Vaults.Operate.Tracked.{IsTracked, add_debt_to_tick-IsTracked}

verify_operate_amounts-AreAccepted_example :
    (verify_operate_amounts (pos 5000) (pos 0) 6 6 ≡ ok tt) ↔ AreAccepted (pos 5000) (pos 0) 6 6
verify_operate_amounts-AreAccepted_example =
    verify_operate_amounts-AreAccepted (pos 5000) (pos 0) 6 6

-- Branch 1 is merged into branch 2, where positions are liquidated to a half.
abbrev merged_branch : Branch
merged_branch = record {
  vault_id = 1;
  branch_id = 1;
  status = 2;
  minima_tick = pos 0;
  minima_tick_partials = 0;
  debt_liquidity = 0;
  debt_factor = 2 ^ 34 * 2 ^ 15 + 16350;
  connected_branch_id = 2;
  connected_minima_tick = negsuc 99;
}

abbrev base_branch : Branch
base_branch = record merged_branch {
  branch_id = 2;
  status = 1;
  minima_tick = negsuc 99;
  minima_tick_partials = 1000;
  debt_liquidity = 500000;
  debt_factor = 2 ^ 34 * 2 ^ 15 + 16384;
}

abbrev two_branches : BranchAccounts
two_branches id = if id == 1 then some merged_branch else if id == 2 then some base_branch else none

abbrev rank : ℕ → ℕ
rank id = if id == 1 then 1 else 0

two_branches-IsRanked : IsRanked rank two_branches
two_branches-IsRanked id b at merge = ground arith

abbrev position : OperateMemoryVars
position = record {
  col_raw = 3000000;
  debt_raw = 1000000;
  dust_debt_raw = 10;
  tick = pos 5;
  tick_id = 1;
}

abbrev liquidated_tick : Tick
liquidated_tick = record {
  vault_id = 1;
  tick = pos 5;
  is_liquidated = 1;
  total_ids = 1;
  raw_debt = 0;
  is_fully_liquidated = 0;
  liquidation_branch_id = 1;
  debt_factor = initial_branch_debt_factor;
}

abbrev no_liquidations : TickIdLiquidation
no_liquidations = record {
  vault_id = 1;
  tick = pos 5;
  tick_map = 1;
  is_fully_liquidated_1 = 0;
  liquidation_branch_id_1 = 0;
  debt_factor_1 = 0;
  is_fully_liquidated_2 = 0;
  liquidation_branch_id_2 = 0;
  debt_factor_2 = 0;
  is_fully_liquidated_3 = 0;
  liquidation_branch_id_3 = 0;
  debt_factor_3 = 0;
}

below_two : (id : ℕ) → rank id < 2
below_two id = ground arith

fetch_latest_position-IsLatest_example :
    (r : Result (ℕ × OperateMemoryVars)) × ((fetch_latest_position 2 position liquidated_tick
          no_liquidations two_branches
        ≡ some r)
      × Ensures (IsLatest two_branches position) r)
fetch_latest_position-IsLatest_example =
    fetch_latest_position-IsLatest rank 2 position liquidated_tick no_liquidations two_branches
      two_branches-IsRanked below_two

latest_debt : Option (Result (ℕ × OperateMemoryVars)) → ℕ
latest_debt (some (ok (id, m))) = m.debt_raw
latest_debt (some (err code)) = 1
latest_debt none = 2

test_latest :
    latest_debt (fetch_latest_position 2 position liquidated_tick no_liquidations two_branches)
    ≡ 499950
unfolding latest_debt fetch_latest_position
    fluid_solana_programs.Vaults.Operate.Latest.follow_merged
    fluid_solana_programs.Math.Bn.mul_big_number
    fluid_solana_programs.Vaults.Operate.Latest.position_at fluid_solana_programs.Math.Casting.cast
    fluid_solana_programs.Math.Bn.mul_div_normal fluid_solana_programs.Math.Bn.divide_shifted
    fluid_solana_programs.Math.SafeMath.safe_div fluid_solana_programs.Math.SafeMath.safe_mul
    fluid_solana_programs.Math.Tick.get_ratio_at_tick
    fluid_solana_programs.Math.Tick.ratio_of_factor
    fluid_solana_programs.Vaults.Branch.get_current_partials_ratio
    fluid_solana_programs.Math.SafeMath.safe_sub fluid_solana_programs.Math.SafeMath.safe_add
test_latest = refl

-- A tick that is used for the first time.
abbrev new_tick : Tick
new_tick = record liquidated_tick {
  tick = pos 1;
  is_liquidated = 0;
  total_ids = 0;
  liquidation_branch_id = 0;
  debt_factor = 0;
}

abbrev no_debt : TickHasDebtAccounts
no_debt k = some (record { vault_id = 1; index = k; children_bits = λ m b. 0 })

no_debt-IsArray : (k : ℕ) → IsArray k (no_debt k)
unfolding IsArray
no_debt-IsArray k = (refl, λ m b. ground arith)

abbrev accounts : TickState
accounts = record { tick_data = new_tick; tick_id_liquidation = no_liquidations; bitmap = no_debt }

abbrev accounts_of : Result (ℤ × ℕ × ℕ × ℕ × TickState) → TickState
accounts_of (err code) = accounts
accounts_of (ok (tick, id, user, dust, t)) = t

with_debt : TickState
with_debt = accounts_of (add_debt_to_tick 1000000 1000000 1000 accounts)

debt_added :
    add_debt_to_tick 1000000 1000000 1000 accounts ≡ ok (tick_at 16384, 1, 1001499, 1499, with_debt)
unfolding with_debt add_debt_to_tick fluid_solana_programs.Vaults.Operate.AddDebt.debt_at_next_tick
    fluid_solana_programs.Math.SafeMath.safe_mul fluid_solana_programs.Math.SafeMath.safe_div
    fluid_solana_programs.Math.Tick.get_tick_at_ratio
    fluid_solana_programs.Math.U256.MulDiv.safe_multiply_divide
    fluid_solana_programs.Math.U256.MulDiv.safe_multiply_divide_result
    fluid_solana_programs.Math.U256.MulDiv.div fluid_solana_programs.Math.U256.num_words
    fluid_solana_programs.Math.U256.mul_u256 fluid_solana_programs.Math.U256.MulDiv.small_division
    fluid_solana_programs.Math.U256.try_into_u128 fluid_solana_programs.Math.Signed.safe_add
    fluid_solana_programs.Math.SafeMath.safe_sub fluid_solana_programs.Vaults.Tick.validate
    fluid_solana_programs.Vaults.Operate.AddDebt.start_tick
    fluid_solana_programs.Vaults.TickHasDebt.update_tick_has_debt
    fluid_solana_programs.Vaults.TickHasDebt.Indices.get_array_index_for_tick
    fluid_solana_programs.Math.Signed.safe_sub fluid_solana_programs.Vaults.TickHasDebt.update_array
    fluid_solana_programs.Vaults.TickHasDebt.Indices.get_tick_indices_for_array
    fluid_solana_programs.Vaults.TickHasDebt.Indices.get_first_tick_for_array_index
    fluid_solana_programs.Math.Signed.safe_mul fluid_solana_programs.Math.Casting.cast_to_unsigned
    fluid_solana_programs.Vaults.Tick.set_raw_debt fluid_solana_programs.Math.Casting.cast
debt_added = refl

add_debt_to_tick-IsTracked_example :
    IsTracked 16384 (omega arith) 1000 1000000 1001499 1499 accounts 1 with_debt
add_debt_to_tick-IsTracked_example =
    add_debt_to_tick-IsTracked 16384 (omega arith) 1000000 1000000 1000 accounts (no_debt-IsArray 8)
      (λ h. absurd (ground (arith, h))) debt_added
