-- ===== src/Liquidity/TokenReserve/Tests.antt =====
-- Runs of the prices, the utilization and the revenue of a token.
use fluid_solana_programs.Base.{ℕ, ◌≡◌, ◌≢◌, refl, none, arith}
use fluid_solana_programs.Base.Int.{pos}
use fluid_solana_programs.Base.Result.{Result, ok, err}
use fluid_solana_programs.Math.Casting.{cast, cast_to_unsigned}
use fluid_solana_programs.Math.SafeMath
use fluid_solana_programs.Math.U256.{mul_u256, num_words, try_into_u128}
use fluid_solana_programs.Math.U256.MulDiv.{
  safe_multiply_divide, safe_multiply_divide_result, div, short_division, small_division,
  normalized_division,
}
use fluid_solana_programs.Math.U256.Division.{div_loop}
use fluid_solana_programs.Math.U256.Shift.{shift_left, shift_right, leading_zeros}
use fluid_solana_programs.Liquidity.TokenReserve.{TokenReserve}
use fluid_solana_programs.Liquidity.TokenReserve.Prices.{
  get_with_interest_vs_free_ratio, grown_borrow_price, utilization_yield, paying_borrowers,
  grown_supply_price, supply_price_at, next_supply_price, new_prices, calculate_exchange_prices,
}
use fluid_solana_programs.Liquidity.TokenReserve.Utilization.{
  check_scaled_amount_overflow, calc_utilization,
}
use fluid_solana_programs.Liquidity.TokenReserve.Revenue.{
  get_total_supply_ceil, get_total_borrow, calc_revenue,
}

abbrev reserve : TokenReserve
reserve = record {
  mint = 5;
  vault = 6;
  borrow_rate = 400;
  fee_on_interest = 1000;
  last_utilization = 5000;
  last_update_timestamp = 1000;
  supply_exchange_price = 1010000000000;
  borrow_exchange_price = 1020000000000;
  max_utilization = 9000;
  total_supply_with_interest = 2000000000;
  total_supply_interest_free = 10000000;
  total_borrow_with_interest = 1000000000;
  total_borrow_interest_free = 5000000;
  total_claim_amount = 1000;
  interacting_protocol = 7;
  interacting_timestamp = 5000;
  interacting_balance = 1000000000;
}

abbrev or_zeros : Result (ℕ × ℕ) → ℕ × ℕ
or_zeros (ok r) = r
or_zeros (err e) = (0, 0)

abbrev or_zero : Result ℕ → ℕ
or_zero (ok r) = r
or_zero (err e) = 0

abbrev prices : ℕ × ℕ
prices = or_zeros (calculate_exchange_prices (pos 5000) reserve)

prices_run : calculate_exchange_prices (pos 5000) reserve ≡ ok prices
unfolding cast cast_to_unsigned SafeMath.safe_add SafeMath.safe_sub SafeMath.safe_mul
    SafeMath.safe_div SafeMath.safe_div_ceil mul_u256 num_words try_into_u128 safe_multiply_divide
    safe_multiply_divide_result div short_division small_division normalized_division div_loop
    shift_left shift_right leading_zeros get_with_interest_vs_free_ratio grown_borrow_price
    utilization_yield paying_borrowers grown_supply_price supply_price_at next_supply_price
    new_prices calculate_exchange_prices
prices_run = refl

abbrev utilization : ℕ
utilization = or_zero (calc_utilization reserve 1010000000000 1020000000000 none none)

utilization_runs : calc_utilization reserve 1010000000000 1020000000000 none none ≡ ok utilization
unfolding calc_utilization check_scaled_amount_overflow cast SafeMath.safe_add SafeMath.safe_mul
    SafeMath.safe_div
utilization_runs = refl

abbrev revenue : ℕ
revenue = or_zero (calc_revenue (pos 5000) 1100000000 reserve)

revenue_runs : calc_revenue (pos 5000) 1100000000 reserve ≡ ok revenue
unfolding calc_revenue get_total_supply_ceil get_total_borrow cast cast_to_unsigned
    SafeMath.safe_add SafeMath.safe_sub SafeMath.safe_mul SafeMath.safe_div SafeMath.safe_div_ceil
    mul_u256 num_words try_into_u128 safe_multiply_divide safe_multiply_divide_result div
    short_division small_division normalized_division div_loop shift_left shift_right leading_zeros
    get_with_interest_vs_free_ratio grown_borrow_price utilization_yield paying_borrowers
    grown_supply_price supply_price_at next_supply_price new_prices calculate_exchange_prices
revenue_runs = refl

some_revenue : revenue ≢ 0
unfolding calc_revenue get_total_supply_ceil get_total_borrow cast cast_to_unsigned
    SafeMath.safe_add SafeMath.safe_sub SafeMath.safe_mul SafeMath.safe_div SafeMath.safe_div_ceil
    mul_u256 num_words try_into_u128 safe_multiply_divide safe_multiply_divide_result div
    short_division small_division normalized_division div_loop shift_left shift_right leading_zeros
    get_with_interest_vs_free_ratio grown_borrow_price utilization_yield paying_borrowers
    grown_supply_price supply_price_at next_supply_price new_prices calculate_exchange_prices
some_revenue = omega arith
