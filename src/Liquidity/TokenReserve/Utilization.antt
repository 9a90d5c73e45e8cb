-- ===== src/Liquidity/TokenReserve/Utilization.antt =====
-- `calc_utilization` and `update_exchange_prices_and_rates` of
-- `programs/liquidity/src/state/token_reserve.rs`.
use fluid_solana_programs.Base.{
  ℕ, ◌*◌, ltb, ◌==◌, if◌then◌else◌, Bool, true, false, ◌&&◌, ◌||◌, Option, none, some,
}
use fluid_solana_programs.Base.Int.{ℤ, is_pos}
use fluid_solana_programs.Base.Errors.{
  liquidity, value_overflow_total_supply, value_overflow_total_borrow,
}
use fluid_solana_programs.Base.Result.{Result, ok, ◌>>=◌, ◌>>◌, fail_if}
use fluid_solana_programs.Math.Words.{u16_max, u64_max, u128_max}
use fluid_solana_programs.Math.Casting.{cast}
use fluid_solana_programs.Math.SafeMath.{safe_add, safe_mul, safe_div}
use fluid_solana_programs.Liquidity.Constants.{
  four_decimals, exchange_prices_precision, max_token_amount_cap,
}
use fluid_solana_programs.Liquidity.Clock.{timestamp}
use fluid_solana_programs.Liquidity.RateModel.{RateModel, calc_borrow_rate_from_utilization}
use fluid_solana_programs.Liquidity.TokenReserve.{TokenReserve}
use fluid_solana_programs.Liquidity.TokenReserve.Prices.{calculate_exchange_prices}

-- Only an amount that comes in or goes out is checked, so only `Some` of a positive amount.
unfoldable pub check_scaled_amount_overflow : Option ℤ → ℕ → ℕ → Bool → Result (Unit {0})
check_scaled_amount_overflow none interest_amount scaled_amount is_supply = ok tt
check_scaled_amount_overflow (some a) interest_amount scaled_amount is_supply =
    fail_if
      (is_pos a
        && (ltb (max_token_amount_cap * exchange_prices_precision) interest_amount
            || ltb (max_token_amount_cap * exchange_prices_precision) scaled_amount))
      (if is_supply
        then liquidity value_overflow_total_supply
        else liquidity value_overflow_total_borrow)

unfoldable pub calc_utilization : TokenReserve → ℕ → ℕ → Option ℤ → Option ℤ → Result ℕ
calc_utilization r supply_price borrow_price supply_amount borrow_amount = do
  free_supply ← safe_mul u128_max r.total_supply_interest_free exchange_prices_precision
  free_borrow ← safe_mul u128_max r.total_borrow_interest_free exchange_prices_precision
  interest_supply ← safe_mul u128_max r.total_supply_with_interest supply_price
  interest_borrow ← safe_mul u128_max r.total_borrow_with_interest borrow_price
  total_supply ← safe_add u128_max interest_supply free_supply
  total_borrow ← safe_add u128_max interest_borrow free_borrow
  if total_supply == 0 then ok 0 else (do
    check_scaled_amount_overflow supply_amount interest_supply total_supply true
    check_scaled_amount_overflow borrow_amount interest_borrow total_borrow false
    scaled ← safe_mul u128_max total_borrow four_decimals
    utilization ← safe_div scaled total_supply
    cast u16_max utilization)

-- The prices, the utilization and the rate, stored with the time.
unfoldable pub update_exchange_prices_and_rates :
    ℤ → RateModel → TokenReserve → Result (ℕ × ℕ × TokenReserve)
update_exchange_prices_and_rates now model r = do
  (supply_price, borrow_price) ← calculate_exchange_prices now r
  utilization ← calc_utilization r supply_price borrow_price none none
  rate ← calc_borrow_rate_from_utilization model utilization
  s ← cast u64_max supply_price
  b ← cast u64_max borrow_price
  t ← timestamp now
  ok (
    supply_price,
    borrow_price,
    record r {
      supply_exchange_price = s;
      borrow_exchange_price = b;
      last_utilization = utilization;
      borrow_rate = rate;
      last_update_timestamp = t;
    },
  )
