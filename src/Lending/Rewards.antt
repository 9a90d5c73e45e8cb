-- ===== src/Lending/Rewards.antt =====
-- `LendingRewardsRateModel::get_rate` (`programs/lendingRewardRateModel/src/state/state.rs`): the yearly
-- rates of the current and of the next rewards, by the assets that share them.
use fluid_solana_programs.Base.{ℕ, ◌*◌, ◌^◌, ltb, ◌==◌, if◌then◌else◌, ◌||◌}
use fluid_solana_programs.Base.Int.{ℤ}
use fluid_solana_programs.Base.Result.{Result, ok, ◌>>=◌}
use fluid_solana_programs.Math.Words.{u64_max, u128_max}
use fluid_solana_programs.Math.Casting.{cast}
use fluid_solana_programs.Math.SafeMath.{safe_add, safe_mul, safe_div}
use fluid_solana_programs.Liquidity.Clock.{timestamp}

abbrev pub return_percent_precision : ℕ
return_percent_precision = 10 ^ 12 * 100

abbrev pub max_rate : ℕ
max_rate = 50 * 10 ^ 12

abbrev pub seconds_per_year : ℕ
seconds_per_year = 365 * 24 * 60 * 60

pub record LendingRewardsRateModel : Type 0 where
  pub mint : ℕ
  pub start_tvl : ℕ
  pub duration : ℕ
  pub start_time : ℕ
  pub yearly_reward : ℕ
  pub next_duration : ℕ
  pub next_reward_amount : ℕ

-- What `get_rate` returns, in its order.
pub record Rates : Type 0 where
  pub current_rate : ℕ
  pub start_time : ℕ
  pub end_time : ℕ
  pub next_start_time : ℕ
  pub next_end_time : ℕ
  pub next_rate : ℕ

-- A yearly reward as a rate of the assets, at most `MAX_RATE`.
unfoldable pub rate_of : ℕ → ℕ → Result ℕ
rate_of yearly_reward total_assets = do
  scaled ← safe_mul u128_max yearly_reward return_percent_precision
  rate ← safe_div scaled total_assets
  if ltb max_rate rate then cast u64_max max_rate else cast u64_max rate

unfoldable pub next_rates : LendingRewardsRateModel → ℕ → ℕ → Result (ℕ × ℕ × ℕ)
unfolding rate_of
next_rates m total_assets end_time =
    if ltb 0 m.next_reward_amount
    then (do
      next_end ← safe_add u64_max end_time m.next_duration
      next_rate ← if ltb total_assets m.start_tvl then ok 0 else (do
        scaled ← safe_mul u128_max m.next_reward_amount seconds_per_year
        next_yearly_reward ← safe_div scaled m.next_duration
        rate_of next_yearly_reward total_assets)
      ok (end_time, next_end, next_rate))
    else ok (0, 0, 0)

unfoldable pub get_rate : ℤ → LendingRewardsRateModel → ℕ → Result Rates
unfolding rate_of next_rates
get_rate now m total_assets = do
  current_time ← timestamp now
  end_time ← safe_add u64_max m.start_time m.duration
  if m.start_time == 0 || ltb current_time m.start_time
      then ok (record {
        current_rate = 0;
        start_time = m.start_time;
        end_time = end_time;
        next_start_time = 0;
        next_end_time = 0;
        next_rate = 0;
      })
      else (do
        current_rate ←
            if ltb total_assets m.start_tvl then ok 0 else rate_of m.yearly_reward total_assets
        (next_start, next_end, next_rate) ← next_rates m total_assets end_time
        ok (record {
          current_rate = current_rate;
          start_time = m.start_time;
          end_time = end_time;
          next_start_time = next_start;
          next_end_time = next_end;
          next_rate = next_rate;
        }))
