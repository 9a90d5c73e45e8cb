-- ===== src/Vaults/Tests.antt =====
-- Runs of the vaults' code, and the theorems on concrete vaults.
use fluid_solana_programs.Base.{ℕ, ◌≡◌, arith, refl, true, ◌==◌, ◌&&◌, if◌then◌else◌, none, some}
use fluid_solana_programs.Base.Int.{ℤ, pos, negsuc, ltb_ℤ}
use fluid_solana_programs.Base.Result.{ok, ◌>>=◌}
use fluid_solana_programs.Math.Casting.{cast_to_unsigned}
use fluid_solana_programs.Math.SafeMath.{safe_add, safe_sub, safe_mul, safe_div, safe_div_ceil}
use fluid_solana_programs.Math.Signed
use fluid_solana_programs.Vaults.TickHasDebt.{
  TickHasDebtArray, TickHasDebtAccounts, update_tick_has_debt, fetch_next_top_tick,
  fetch_next_tick_liquidate,
}
use fluid_solana_programs.Vaults.TickHasDebt.Indices.{cold_tick}
use fluid_solana_programs.Vaults.TickHasDebt.Places.{tick_at}
use fluid_solana_programs.Vaults.TickSet.{has_debt, IsArray, highest, tick_or_cold}
use fluid_solana_programs.Vaults.TickSet.Bits.{outside_of_cleared}
use fluid_solana_programs.Vaults.TickSet.Update.{update_tick_has_debt-members}
use fluid_solana_programs.Vaults.TickSet.Search.{and_member, fetch_next_top_tick-highest}
use fluid_solana_programs.Vaults.TickSet.Liquidate.{Stops, fetch_next_tick_liquidate-Stops}
use fluid_solana_programs.Vaults.TickIdLiquidation.{
  TickIdLiquidation, set_tick_status, get_tick_status, get_tick_status-set_tick_status,
}
use fluid_solana_programs.Vaults.Branch.{Branch, BranchAccounts}
use fluid_solana_programs.Vaults.VaultState.{VaultState}
use fluid_solana_programs.Vaults.VaultState.TopTick.{
  set_top_tick, top_of_vault, greater, set_top_tick-greater,
}
use fluid_solana_programs.Vaults.CurrentLiquidity.{CurrentLiquidity}
use fluid_solana_programs.Vaults.VaultState.Dust.{absorb_dust_amount_for_liquidate}
use fluid_solana_programs.Vaults.VaultState.Prices.{
  RateMagnifiers, vault_prices, magnify, increase, follow_supply, follow_borrow, elapsed,
}
use fluid_solana_programs.Vaults.Position.{
  AmountInfo, VaultExchangePrices, get_new_position_info, change_collateral, change_debt,
  add_borrow,
}
use fluid_solana_programs.Vaults.Position.Amounts.{
  CoveredCollateral, CoveredDebt, get_new_position_info-covered,
}

-- All arrays are loaded, and each has two ticks with debt in its third map.
abbrev some_debt : ℕ → TickHasDebtArray
some_debt k = record {
  vault_id = 1;
  index = k;
  children_bits = λ m b. if m == 2 && b == 3 then 20 else 0;
}

abbrev bitmap : TickHasDebtAccounts
bitmap k = some (some_debt k)

bitmap-IsArray : (k : ℕ) → IsArray k (bitmap k)
unfolding IsArray
bitmap-IsArray k = (refl, λ m b. ground arith)

fetch_next_top_tick-highest_example :
    (fetch_next_top_tick (tick_at 5000) bitmap >>= and_member 4636)
    ≡ ok (
      tick_or_cold (highest (has_debt bitmap) 5000),
      has_debt bitmap 4636 && outside_of_cleared 5000 4636,
    )
fetch_next_top_tick-highest_example =
    fetch_next_top_tick-highest bitmap 5000 (omega arith) (λ k le. bitmap-IsArray k) 4636

fetch_next_tick_liquidate-Stops_example :
    (found : ℤ) × (updated : TickHasDebtAccounts) × (fetch_next_tick_liquidate
        (tick_at 5000)
        (negsuc 12000)
        true
        bitmap
      ≡ ok (found, updated))
    × Stops (negsuc 12000) (highest (has_debt bitmap) 5000) found
fetch_next_tick_liquidate-Stops_example =
    fetch_next_tick_liquidate-Stops bitmap 5000 (negsuc 12000) (omega arith)
      (λ k le. bitmap-IsArray k) true

update_tick_has_debt-members_example :
    (update_tick_has_debt (tick_at 5000) true bitmap >>= λ updated. ok (has_debt updated 4636))
    ≡ ok (if 4636 == 5000 then true else has_debt bitmap 4636)
update_tick_has_debt-members_example =
    update_tick_has_debt-members bitmap true 5000 4636 (omega arith) (bitmap-IsArray 2)

abbrev vault_at : ℤ → VaultState
vault_at top = record {
  vault_id = 1;
  branch_liquidated = 0;
  topmost_tick = top;
  current_branch_id = 3;
  total_branch_id = 3;
  total_supply = 1000;
  total_borrow = 500;
  total_positions = 2;
  absorbed_debt_amount = 100;
  absorbed_col_amount = 80;
  absorbed_dust_debt = 0;
  liquidity_supply_exchange_price = 1000000000000;
  liquidity_borrow_exchange_price = 1000000000000;
  vault_supply_exchange_price = 1000000000000;
  vault_borrow_exchange_price = 1000000000000;
  next_position_id = 3;
  last_update_timestamp = 1000;
}

abbrev branch : Branch
branch = record {
  vault_id = 1;
  branch_id = 3;
  status = 0;
  minima_tick = cold_tick;
  minima_tick_partials = 0;
  debt_liquidity = 0;
  debt_factor = 0;
  connected_branch_id = 2;
  connected_minima_tick = negsuc 11000;
}

abbrev branches : BranchAccounts
branches i = if i == 3 then some branch else none

set_top_tick-greater_example :
    (set_top_tick branches bitmap (vault_at (tick_at 5000)) >>= top_of_vault)
    ≡ ok (
      greater (negsuc 11000) (tick_or_cold (highest (has_debt bitmap) 5000)),
      greater (negsuc 11000) (tick_or_cold (highest (has_debt bitmap) 5000)),
      if ltb_ℤ (tick_or_cold (highest (has_debt bitmap) 5000)) (negsuc 11000) then 1 else 0,
    )
set_top_tick-greater_example =
    set_top_tick-greater branches bitmap (vault_at (tick_at 5000)) branch 5000 refl (omega arith)
      (λ k le. bitmap-IsArray k) refl (omega arith)

abbrev remaining : ℕ → ℕ → ℕ → CurrentLiquidity
remaining debt debt_liq col_liq = record {
  debt_remaining = debt;
  debt = 0;
  col = 0;
  total_debt_liq = debt_liq;
  total_col_liq = col_liq;
  tick = pos 0;
  ratio = 0x1000000000000;
  tick_status = 1;
  ref_tick = negsuc 9;
  ref_ratio = 0xfc0000000000;
  ref_tick_status = 3;
}

abbrev half_absorbed : VaultState
half_absorbed = record (vault_at (pos 0)) { absorbed_debt_amount = 50; absorbed_col_amount = 40 }

dust_run :
    absorb_dust_amount_for_liquidate (remaining 50 0 0) (vault_at (pos 0))
    ≡ ok (remaining 0 50 40, half_absorbed)
unfolding absorb_dust_amount_for_liquidate safe_mul safe_div safe_sub
dust_run = refl

abbrev magnifiers : RateMagnifiers
magnifiers = record { supply_rate_magnifier = pos 500; borrow_rate_magnifier = pos 500 }

prices_run :
    vault_prices (pos 2000) magnifiers 1100000000000 1200000000000 (vault_at (pos 0))
    ≡ ok (1100001585489, 1200001585489)
unfolding vault_prices magnify increase follow_supply follow_borrow elapsed safe_add safe_sub
    safe_mul safe_div safe_div_ceil cast_to_unsigned Signed.abs
prices_run = refl

abbrev first_loan : AmountInfo
first_loan = record { new_col = pos 1000000; new_debt = pos 500; col_raw = 0; debt_raw = 0 }

abbrev vault_exchange_prices : VaultExchangePrices
vault_exchange_prices = record {
  supply_ex_price = 1000000000000;
  borrow_ex_price = 1100000000000;
  borrow_fee = 0;
}

position_run :
    get_new_position_info first_loan vault_exchange_prices ≡ ok (pos 1000000, pos 500, 1000000, 455)
unfolding get_new_position_info change_collateral change_debt add_borrow safe_add safe_mul safe_div
    safe_div_ceil
position_run = refl

get_new_position_info-covered_example :
    CoveredCollateral 1000000000000 0 1000000 (pos 1000000)
    × CoveredDebt 1100000000000 0 455 (pos 500)
get_new_position_info-covered_example =
    get_new_position_info-covered first_loan vault_exchange_prices position_run

abbrev no_liquidation : TickIdLiquidation
no_liquidation = record {
  vault_id = 1;
  tick = pos 12;
  tick_map = 2;
  is_fully_liquidated_1 = 0;
  liquidation_branch_id_1 = 0;
  debt_factor_1 = 0;
  is_fully_liquidated_2 = 0;
  liquidation_branch_id_2 = 0;
  debt_factor_2 = 0;
  is_fully_liquidated_3 = 0;
  liquidation_branch_id_3 = 0;
  debt_factor_3 = 0;
}

get_tick_status-set_tick_status_example :
    ((set_tick_status 5 true 3 77 no_liquidation >>= get_tick_status 5) ≡ ok (true, 3, 77))
    × ((set_tick_status 5 true 3 77 no_liquidation >>= get_tick_status 4)
        ≡ get_tick_status 4 no_liquidation)
get_tick_status-set_tick_status_example =
    get_tick_status-set_tick_status 5 4 true 3 77 no_liquidation (omega arith) (omega arith) refl
      (omega arith)
