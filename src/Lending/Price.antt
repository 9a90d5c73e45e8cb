-- ===== src/Lending/Price.antt =====
-- `calculate_new_token_exchange_price` and `update_rates` of `programs/lending/src/utils/helpers.rs`, on
-- the fields of `Lending` (`programs/lending/src/state/state.rs`) that they use.
pub mod Growth
use fluid_solana_programs.Base.{ℕ, ◌-◌, ◌*◌, ltb, if◌then◌else◌, ◌&&◌}
use fluid_solana_programs.Base.Int.{ℤ}
use fluid_solana_programs.Base.Errors.{lending, f_token_liquidity_exchange_price_unexpected}
use fluid_solana_programs.Base.Result.{Result, ok, ◌>>=◌, ◌>>◌, fail_if}
use fluid_solana_programs.Math.Words.{u64_max, u128_max}
use fluid_solana_programs.Math.Casting.{cast, cast_to_unsigned}
use fluid_solana_programs.Math.SafeMath.{safe_add, safe_sub, safe_mul, safe_div}
use fluid_solana_programs.Liquidity.Clock.{timestamp}
use fluid_solana_programs.Liquidity.Constants.{exchange_prices_precision}
use fluid_solana_programs.Lending.Rewards.{
  LendingRewardsRateModel, Rates, get_rate, return_percent_precision, seconds_per_year,
}

abbrev pub max_rewards_rate : ℕ
max_rewards_rate = 50 * exchange_prices_precision

pub record Lending : Type 0 where
  pub liquidity_exchange_price : ℕ
  pub token_exchange_price : ℕ
  pub last_update_timestamp : ℕ

abbrev least : ℕ → ℕ → ℕ
least a b = if ltb a b then a else b

abbrev greatest : ℕ → ℕ → ℕ
greatest a b = if ltb a b then b else a

-- A rate over a period, as a share of a year.
unfoldable pub reward_over : ℕ → ℕ → Result ℕ
reward_over rate period = do
  scaled ← safe_mul u128_max rate period
  safe_div scaled seconds_per_year

abbrev capped : ℕ → ℕ
capped rate = if ltb max_rewards_rate rate then 0 else rate

-- The current rewards since the last update: their return, and until when they are paid.
unfoldable pub current_rewards : Rates → ℕ → ℕ → Result (ℕ × ℕ)
unfolding reward_over
current_rewards r time last =
    if ltb 0 r.start_time && ltb 0 r.current_rate && ltb last r.end_time
    then (do
      let start = greatest last r.start_time
      let period_end = least time r.end_time
      if ltb start period_end
          then (do
            reward ← reward_over (capped r.current_rate) (period_end - start)
            paid_until ← cast u64_max period_end
            ok (reward, paid_until))
          else ok (0, start))
    else ok (0, last)

-- The next rewards, where the current ones have ended.
unfoldable pub next_rewards : Rates → ℕ → ℕ → Result ℕ
unfolding reward_over
next_rewards r time last =
    if ltb 0 r.next_start_time
      && ltb 0 r.next_end_time
      && ltb 0 r.next_rate
      && ltb r.next_start_time time
    then (do
      let start = greatest last r.next_start_time
      let period_end = least time r.next_end_time
      if ltb start period_end then reward_over (capped r.next_rate) (period_end - start) else ok 0)
    else ok 0

-- The growth of the price of the liquidity layer, in percent.
unfoldable pub liquidity_return : ℕ → ℕ → Result ℕ
liquidity_return new_price old_price = do
  growth ← safe_sub new_price old_price
  scaled ← safe_mul u128_max growth return_percent_precision
  safe_div scaled old_price

unfoldable pub grow_price : ℕ → ℕ → Result ℕ
grow_price price percent = do
  scaled ← safe_mul u128_max price percent
  growth ← safe_div scaled return_percent_precision
  growth_64 ← cast u64_max growth
  safe_add u64_max price growth_64

-- The rewards since the last update, of the current and the next period.
unfoldable pub total_rewards : ℤ → ℕ → Lending → LendingRewardsRateModel → ℕ → Result ℕ
unfolding current_rewards next_rewards
total_rewards now time l m total_assets = do
  rates ← get_rate now m total_assets
  (current, last) ← current_rewards rates time l.last_update_timestamp
  next ← next_rewards rates time last
  safe_add u128_max current next

unfoldable pub calculate_new_token_exchange_price :
    ℤ → ℕ → Lending → LendingRewardsRateModel → ℕ → Result ℕ
calculate_new_token_exchange_price now new_liquidity_exchange_price l m f_token_total_supply = do
  fail_if (ltb new_liquidity_exchange_price l.liquidity_exchange_price)
      (lending f_token_liquidity_exchange_price_unexpected)
  time ← cast_to_unsigned u128_max now
  scaled ← safe_mul u128_max l.token_exchange_price f_token_total_supply
  assets ← safe_div scaled exchange_prices_precision
  total_assets ← cast u64_max assets
  rewards ← total_rewards now time l m total_assets
  growth ← liquidity_return new_liquidity_exchange_price l.liquidity_exchange_price
  percent ← safe_add u128_max rewards growth
  grow_price l.token_exchange_price percent

unfoldable pub update_rates : ℤ → ℕ → LendingRewardsRateModel → ℕ → Lending → Result (ℕ × Lending)
unfolding calculate_new_token_exchange_price
update_rates now liquidity_exchange_price m f_token_total_supply l = do
  price ← calculate_new_token_exchange_price now liquidity_exchange_price l m f_token_total_supply
  t ← timestamp now
  ok (
    price,
    record {
      liquidity_exchange_price = liquidity_exchange_price;
      token_exchange_price = price;
      last_update_timestamp = t;
    },
  )
