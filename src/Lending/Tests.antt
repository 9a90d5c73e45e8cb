-- ===== src/Lending/Tests.antt =====
-- Runs of the lending program, and the theorems on a concrete fToken: the price of the liquidity layer
-- has grown by a fifth, and there are no rewards.
use fluid_solana_programs.Base.{ℕ, ◌+◌, ◌-◌, ◌*◌, ◌≤◌, ◌<◌, ◌≡◌, refl}
use fluid_solana_programs.Base.Int.{pos}
use fluid_solana_programs.Base.Result.{ok}
use fluid_solana_programs.Math.Casting.{cast, cast_to_unsigned}
use fluid_solana_programs.Math.SafeMath.{safe_add, safe_sub, safe_mul, safe_div, safe_div_ceil}
use fluid_solana_programs.Liquidity.Clock.{timestamp}
use fluid_solana_programs.Lending.Rewards.{LendingRewardsRateModel, get_rate}
use fluid_solana_programs.Lending.Price.{
  Lending, current_rewards, next_rewards, total_rewards, liquidity_return, grow_price,
  calculate_new_token_exchange_price, update_rates,
}
use fluid_solana_programs.Lending.Shares.{
  registered_amount, shares_minted, shares_to_burn, execute_deposit, execute_withdraw,
}
use fluid_solana_programs.Lending.Shares.Backed.{execute_deposit-backed, execute_withdraw-backed}

abbrev no_rewards : LendingRewardsRateModel
no_rewards = record {
  mint = 7;
  start_tvl = 0;
  duration = 0;
  start_time = 0;
  yearly_reward = 0;
  next_duration = 0;
  next_reward_amount = 0;
}

abbrev lending_at : ℕ → ℕ → Lending
lending_at price t = record {
  liquidity_exchange_price = price;
  token_exchange_price = price;
  last_update_timestamp = t;
}

deposit_run :
    execute_deposit (pos 2000) no_rewards 0 0 1000 1200000000000 (lending_at 1000000000000 1000)
    ≡ ok (1000, lending_at 1200000000000 2000)
unfolding execute_deposit registered_amount shares_minted update_rates
    calculate_new_token_exchange_price total_rewards get_rate current_rewards next_rewards
    liquidity_return grow_price timestamp cast cast_to_unsigned safe_add safe_sub safe_mul safe_div
deposit_run = refl

execute_deposit-backed_example :
    (0 < 1000)
    × (1000 * 1200000000000 ≤ (1000 - 0) * 1200000000000)
    × (1000000000000 ≤ 1200000000000)
execute_deposit-backed_example =
    execute_deposit-backed (pos 2000) no_rewards 0 0 1000 1200000000000
      (lending_at 1000000000000 1000) deposit_run

withdraw_run :
    execute_withdraw (pos 2000) no_rewards 5000 1200000000000 1201 (lending_at 1000000000000 1000)
    ≡ ok (1001, lending_at 1200000000000 2000)
unfolding execute_withdraw shares_to_burn update_rates calculate_new_token_exchange_price
    total_rewards get_rate current_rewards next_rewards liquidity_return grow_price timestamp cast
    cast_to_unsigned safe_add safe_sub safe_mul safe_div safe_div_ceil
withdraw_run = refl

execute_withdraw-backed_example :
    (1201 * 1000000000000 ≤ 1001 * 1200000000000)
    × (1001 * 1200000000000 < 1201 * 1000000000000 + 1200000000000)
    × (1000000000000 ≤ 1200000000000)
execute_withdraw-backed_example =
    execute_withdraw-backed (pos 2000) no_rewards 5000 1200000000000 1201
      (lending_at 1000000000000 1000) withdraw_run

return_run : liquidity_return 1200000000000 1000000000000 ≡ ok 20000000000000
unfolding liquidity_return safe_sub safe_mul safe_div
return_run = refl

growth_run : grow_price 1000000000000 20000000000000 ≡ ok 1200000000000
unfolding grow_price cast safe_add safe_mul safe_div
growth_run = refl
