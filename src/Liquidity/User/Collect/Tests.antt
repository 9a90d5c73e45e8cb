-- ===== src/Liquidity/User/Collect/Tests.antt =====
-- Runs of `collect_revenue`.
use fluid_solana_programs.Base.{ℕ, ◌+◌, ◌*◌, ◌^◌, ◌≤◌, ◌<◌, ◌≡◌, refl, ◌⊎◌, arith}
use fluid_solana_programs.Base.Int.{pos}
use fluid_solana_programs.Base.Result.{ok}
use fluid_solana_programs.Math.Casting.{cast, cast_to_unsigned}
use fluid_solana_programs.Math.SafeMath
use fluid_solana_programs.Math.U256.{mul_u256, num_words, try_into_u128}
use fluid_solana_programs.Math.U256.MulDiv.{
  safe_multiply_divide, safe_multiply_divide_result, div, short_division, small_division,
  normalized_division,
}
use fluid_solana_programs.Math.U256.Division.{div_loop}
use fluid_solana_programs.Math.U256.Shift.{shift_left, shift_right, leading_zeros}
use fluid_solana_programs.Liquidity.TokenReserve.Prices.{
  get_with_interest_vs_free_ratio, grown_borrow_price, utilization_yield, paying_borrowers,
  grown_supply_price, supply_price_at, next_supply_price, new_prices, calculate_exchange_prices,
}
use fluid_solana_programs.Liquidity.TokenReserve.Revenue.{
  get_total_supply_ceil, get_total_borrow, calc_revenue,
}
use fluid_solana_programs.Liquidity.TokenReserve.Revenue
use fluid_solana_programs.Liquidity.Claim.{Accounts, transfer_spl_tokens}
use fluid_solana_programs.Liquidity.User.{collect_amount, collect_revenue}
use fluid_solana_programs.Liquidity.User.Payout.{IsCovered}
use fluid_solana_programs.Liquidity.User.Collect.{collect_revenue_solvent}
use fluid_solana_programs.Liquidity.User.Sample.{
  move_out, move_out-takes, or_default, reserve, before,
}

-- A vault with revenue.
abbrev rich : Accounts
rich = record before { vault_balance = 1100000000 }

abbrev prices : ℕ × ℕ
prices = or_default (0, 0) (calculate_exchange_prices (pos 5000) reserve)

prices_run : calculate_exchange_prices (pos 5000) reserve ≡ ok prices
unfolding calculate_exchange_prices new_prices grown_borrow_price next_supply_price supply_price_at
    grown_supply_price utilization_yield paying_borrowers get_with_interest_vs_free_ratio cast
    cast_to_unsigned SafeMath.safe_add SafeMath.safe_sub SafeMath.safe_mul SafeMath.safe_div
    SafeMath.safe_div_ceil mul_u256 num_words try_into_u128 safe_multiply_divide
    safe_multiply_divide_result div short_division small_division normalized_division div_loop
    shift_left shift_right leading_zeros
prices_run = refl

rich_covers :
    1000 * 10 ^ 12 + Revenue.supplied reserve prices.0
    ≤ 1100000000 * 10 ^ 12 + Revenue.borrowed reserve prices.1
unfolding calculate_exchange_prices new_prices grown_borrow_price next_supply_price supply_price_at
    grown_supply_price utilization_yield paying_borrowers get_with_interest_vs_free_ratio cast
    cast_to_unsigned SafeMath.safe_add SafeMath.safe_sub SafeMath.safe_mul SafeMath.safe_div
    SafeMath.safe_div_ceil mul_u256 num_words try_into_u128 safe_multiply_divide
    safe_multiply_divide_result div short_division small_division normalized_division div_loop
    shift_left shift_right leading_zeros
rich_covers = omega arith

abbrev collected : Accounts
collected = or_default rich (collect_revenue move_out (pos 5000) rich)

collected_runs : collect_revenue move_out (pos 5000) rich ≡ ok collected
unfolding collect_revenue collect_amount calc_revenue get_total_supply_ceil get_total_borrow
    transfer_spl_tokens calculate_exchange_prices new_prices grown_borrow_price next_supply_price
    supply_price_at grown_supply_price utilization_yield paying_borrowers
    get_with_interest_vs_free_ratio cast cast_to_unsigned SafeMath.safe_add SafeMath.safe_sub
    SafeMath.safe_mul SafeMath.safe_div SafeMath.safe_div_ceil mul_u256 num_words try_into_u128
    safe_multiply_divide safe_multiply_divide_result div short_division small_division
    normalized_division div_loop shift_left shift_right leading_zeros
collected_runs = refl

collect_revenue_solvent_example :
    (collected.token_reserve.total_claim_amount * 10 ^ 12
        + Revenue.supplied collected.token_reserve prices.0
      ≤ collected.vault_balance * 10 ^ 12 + Revenue.borrowed collected.token_reserve prices.1)
    × (IsCovered collected
        ⊎ (Revenue.supplied reserve prices.0 < Revenue.borrowed reserve prices.1))
collect_revenue_solvent_example =
    collect_revenue_solvent move_out move_out-takes (pos 5000) rich collected prices.0 prices.1
      prices_run rich_covers collected_runs

-- A reserve that has lent all, with interest that the suppliers do not get: the vault holds the claims
-- and nothing else.
abbrev lent : Accounts
lent = record before {
  vault_balance = 50000000;
  token_reserve = record reserve {
    total_supply_with_interest = 1000000000;
    total_supply_interest_free = 0;
    total_borrow_with_interest = 1000000000;
    total_borrow_interest_free = 0;
    total_claim_amount = 50000000;
  };
}

-- The revenue is paid out of the tokens that are approved for claims.
lent_runs : collect_revenue move_out (pos 1000) lent ≡ ok (record lent { vault_balance = 40000000 })
unfolding collect_revenue collect_amount calc_revenue get_total_supply_ceil get_total_borrow
    transfer_spl_tokens calculate_exchange_prices new_prices grown_borrow_price next_supply_price
    supply_price_at grown_supply_price utilization_yield paying_borrowers
    get_with_interest_vs_free_ratio cast cast_to_unsigned SafeMath.safe_add SafeMath.safe_sub
    SafeMath.safe_mul SafeMath.safe_div SafeMath.safe_div_ceil mul_u256 num_words try_into_u128
    safe_multiply_divide safe_multiply_divide_result div short_division small_division
    normalized_division div_loop shift_left shift_right leading_zeros
lent_runs = refl
