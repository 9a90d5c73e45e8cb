-- ===== src/Liquidity/Admin/Token.antt =====
-- `update_rate_data_v1`, `update_rate_data_v2`, `update_token_config` and `update_user_withdrawal_limit` of
-- `programs/liquidity/src/module/admin.rs`. Events are left out.
use fluid_solana_programs.Base.{ℕ, ◌≤◌, ◌≡◌, arith, ltb, ◌==◌, if◌then◌else◌, not, ◌||◌}
use fluid_solana_programs.Base.Int.{ℤ}
use fluid_solana_programs.Base.Errors.{liquidity, invalid_config_order, invalid_params}
use fluid_solana_programs.Base.Result.{Result, ok, ◌>>=◌, ◌>>◌, fail_if}
use fluid_solana_programs.Math.Words.{u16_max, u128_max}
use fluid_solana_programs.Math.Casting.{cast}
use fluid_solana_programs.Math.SafeMath.{safe_sub, safe_mul, safe_div}
use fluid_solana_programs.Liquidity.Clock.{timestamp}
use fluid_solana_programs.Liquidity.Constants.{Pubkey, four_decimals}
use fluid_solana_programs.Liquidity.RateModel.{
  RateModel, RateDataV1Params, RateDataV2Params, set_rate_v1, set_rate_v2,
}
use fluid_solana_programs.Liquidity.SupplyPosition.{UserSupplyPosition, set_withdrawal_limit}
use fluid_solana_programs.Liquidity.TokenReserve.{TokenReserve}
use fluid_solana_programs.Liquidity.TokenReserve.Prices.{update_exchange_price}
use fluid_solana_programs.Liquidity.TokenReserve.Utilization.{update_exchange_prices_and_rates}

-- The prices are brought to the present on the old curve before the new one is stored.
unfoldable pub update_rate_data_v1 :
    ℤ → RateDataV1Params → TokenReserve → RateModel → Result (TokenReserve × RateModel)
update_rate_data_v1 now rate_data r m = do
  (_, _, priced) ← update_exchange_price now r
  model ← set_rate_v1 rate_data m
  (_, _, updated) ← update_exchange_prices_and_rates now model priced
  ok (updated, model)

unfoldable pub update_rate_data_v2 :
    ℤ → RateDataV2Params → TokenReserve → RateModel → Result (TokenReserve × RateModel)
update_rate_data_v2 now rate_data r m = do
  (_, _, priced) ← update_exchange_price now r
  model ← set_rate_v2 rate_data m
  (_, _, updated) ← update_exchange_prices_and_rates now model priced
  ok (updated, model)

pub record TokenConfig : Type 0 where
  pub token : Pubkey
  pub fee : ℕ
  pub max_utilization : ℕ

unfoldable pub update_token_config :
    ℤ → Pubkey → RateModel → TokenConfig → TokenReserve → Result TokenReserve
update_token_config now mint model c r = do
  fail_if (not (c.token == mint)) (liquidity invalid_params)
  fail_if (model.version == 0) (liquidity invalid_config_order)
  fail_if (ltb four_decimals c.fee) (liquidity invalid_params)
  fail_if (ltb four_decimals c.max_utilization || c.max_utilization == 0) (liquidity invalid_params)
  (_, _, priced) ← update_exchange_price now r
  fee ← cast u16_max c.fee
  most ← cast u16_max c.max_utilization
  (_, _, updated) ←
      update_exchange_prices_and_rates now model
        (record priced { fee_on_interest = fee; max_utilization = most })
  ok updated

-- The new limit, kept between full expansion and the amount, and 0 below the base limit.
unfoldable pub chosen_limit : ℕ → ℕ → ℕ → ℕ → ℕ
chosen_limit new_limit most amount base =
    if ltb amount base
    then 0
    else if new_limit == 0 || ltb new_limit most
    then most
    else if new_limit == u128_max || ltb amount new_limit
    then amount
    else new_limit

unfoldable pub update_user_withdrawal_limit : ℤ → ℕ → UserSupplyPosition → Result UserSupplyPosition
unfolding chosen_limit set_withdrawal_limit
update_user_withdrawal_limit now new_limit p = do
  scaled ← safe_mul u128_max p.amount p.expand_pct
  expansion ← safe_div scaled four_decimals
  max_withdrawal_limit ← safe_sub p.amount expansion
  limited ←
      set_withdrawal_limit
        (chosen_limit new_limit max_withdrawal_limit p.amount p.base_withdrawal_limit) p
  t ← timestamp now
  ok (record limited { last_update = t })

-- Where the withdrawal limit is updated: it is at most the amount, which stays as it was.
update_user_withdrawal_limit-le :
    (now : ℤ) (new_limit : ℕ) (p : UserSupplyPosition) {q : UserSupplyPosition}
    → update_user_withdrawal_limit now new_limit p ≡ ok q
    → (q.withdrawal_limit ≤ q.amount) × (q.amount ≡ p.amount)
unfolding update_user_withdrawal_limit chosen_limit set_withdrawal_limit safe_sub
update_user_withdrawal_limit-le now new_limit p run = ground arith
