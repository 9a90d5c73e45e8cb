-- ===== src/Vaults/VaultState/Prices.antt =====
-- `load_exchange_prices` and `update_exchange_prices` of `programs/vaults/src/state/vault_state.rs`: the
-- vault's prices follow those of the liquidity layer, with the two magnifiers of
-- `programs/vaults/src/state/vault_config.rs`. Events are left out.
pub mod Growth
use fluid_solana_programs.Base.{
  ℕ, ◌+◌, ◌-◌, ◌*◌, ◌/◌, ◌%◌, ◌^◌, ◌≤◌, ◌<◌, ◌≡◌, arith, ltb, ◌==◌, if◌then◌else◌, Bool, ◌||◌,
}
use fluid_solana_programs.Base.Int.{ℤ, pos, is_pos}
use fluid_solana_programs.Base.Errors.{vault, vault_liquidity_exchange_price_unexpected}
use fluid_solana_programs.Base.Result.{Result, ok, err, ◌>>=◌, ◌>>◌, fail_if}
use fluid_solana_programs.Math.Words.{u64_max, u128_max, i16_max}
use fluid_solana_programs.Math.Casting.{cast, cast_to_unsigned}
use fluid_solana_programs.Math.SafeMath.{safe_add, safe_sub, safe_mul, safe_div, safe_div_ceil}
use fluid_solana_programs.Math.Signed
use fluid_solana_programs.Liquidity.Clock.{timestamp}
use fluid_solana_programs.Liquidity.TokenReserve.{TokenReserve}
use fluid_solana_programs.Liquidity.TokenReserve.Prices.{calculate_exchange_prices}
use fluid_solana_programs.Vaults.Constants.{
  exchange_price_scale_factor, four_decimals, seconds_per_year,
}
use fluid_solana_programs.Vaults.VaultState.{VaultState}

-- The magnifiers of `VaultConfig`, i16.
pub record RateMagnifiers : Type 0 where
  pub supply_rate_magnifier : ℤ
  pub borrow_rate_magnifier : ℤ

-- What the magnifier adds to the price or takes off it over the time, from the price before.
unfoldable pub magnify : ℤ → ℕ → ℕ → ℕ → Result ℕ
magnify magnifier time_diff price_old price = if Signed.is_zero magnifier then ok price else (do
  over_time ← safe_mul u128_max price_old time_diff
  magnitude ← Signed.abs i16_max magnifier
  factor ← cast_to_unsigned u128_max magnitude
  scaled ← safe_mul u128_max over_time factor
  per_year ← safe_div scaled four_decimals
  rate_change ← safe_div per_year seconds_per_year
  if is_pos magnifier then safe_add u128_max price rate_change else safe_sub price rate_change)

-- The growth of the price of the liquidity layer, scaled.
unfoldable pub increase : ℕ → ℕ → Result ℕ
increase price old_price = do
  scaled ← safe_mul u128_max price exchange_price_scale_factor
  safe_div scaled old_price

unfoldable pub follow_supply : ℕ → ℕ → ℕ → Result ℕ
unfolding increase
follow_supply liq_price old_liq_price price = do
  percent ← increase liq_price old_liq_price
  scaled ← safe_mul u128_max price percent
  safe_div scaled exchange_price_scale_factor

unfoldable pub follow_borrow : ℕ → ℕ → ℕ → Result ℕ
unfolding increase
follow_borrow liq_price old_liq_price price = do
  percent ← increase liq_price old_liq_price
  scaled ← safe_mul u128_max price percent
  safe_div_ceil u128_max scaled exchange_price_scale_factor

-- `Clock::get()?.unix_timestamp.cast::<u128>()?.safe_sub(self.last_update_timestamp.cast()?)?`
unfoldable pub elapsed : ℤ → ℕ → Result ℕ
elapsed now last = do t ← cast_to_unsigned u128_max now; safe_sub t last

-- The vault's two prices, from those of the liquidity layer.
unfoldable pub vault_prices : ℤ → RateMagnifiers → ℕ → ℕ → VaultState → Result (ℕ × ℕ)
vault_prices now c liq_supply liq_borrow v = do
  fail_if
      (ltb liq_supply v.liquidity_supply_exchange_price
        || ltb liq_borrow v.liquidity_borrow_exchange_price)
      (vault vault_liquidity_exchange_price_unexpected)
  followed ←
      follow_supply liq_supply v.liquidity_supply_exchange_price v.vault_supply_exchange_price
  time_diff ← elapsed now v.last_update_timestamp
  supply ← magnify c.supply_rate_magnifier time_diff v.vault_supply_exchange_price followed
  owed ← follow_borrow liq_borrow v.liquidity_borrow_exchange_price v.vault_borrow_exchange_price
  borrow ← magnify c.borrow_rate_magnifier time_diff v.vault_borrow_exchange_price owed
  ok (supply, borrow)

unfoldable pub load_exchange_prices :
    ℤ → RateMagnifiers → TokenReserve → TokenReserve → VaultState → Result (ℕ × ℕ × ℕ × ℕ)
load_exchange_prices now c supply_reserve borrow_reserve v = do
  (liq_supply, _) ← calculate_exchange_prices now supply_reserve
  (_, liq_borrow) ← calculate_exchange_prices now borrow_reserve
  (supply, borrow) ← vault_prices now c liq_supply liq_borrow v
  ok (liq_supply, liq_borrow, supply, borrow)

unfoldable pub update_exchange_prices :
    ℤ → RateMagnifiers → TokenReserve → TokenReserve → VaultState → Result VaultState
update_exchange_prices now c supply_reserve borrow_reserve v = do
  (liq_supply, liq_borrow, supply, borrow) ←
      load_exchange_prices now c supply_reserve borrow_reserve v
  liq_supply_64 ← cast u64_max liq_supply
  liq_borrow_64 ← cast u64_max liq_borrow
  supply_64 ← cast u64_max supply
  borrow_64 ← cast u64_max borrow
  t ← timestamp now
  ok (record v {
    liquidity_supply_exchange_price = liq_supply_64;
    liquidity_borrow_exchange_price = liq_borrow_64;
    vault_supply_exchange_price = supply_64;
    vault_borrow_exchange_price = borrow_64;
    last_update_timestamp = t;
  })
