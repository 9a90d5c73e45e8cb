-- ===== src/Lending/Shares.antt =====
-- The shares of a deposit and of a withdrawal (`programs/lending/src/utils/deposit.rs`, `withdraw.rs` and
-- `helpers.rs`). The call into the liquidity program and the transfers stand outside: what they bring
-- is an argument, the raw supply of the program before and after and the price that the call returns.
pub mod Backed
use fluid_solana_programs.Base.{ℕ, ◌-◌, ◌*◌, ◌/◌, ◌≤◌, ◌≡◌, arith, ◌==◌, if◌then◌else◌, Bool}
use fluid_solana_programs.Base.Int.{ℤ}
use fluid_solana_programs.Base.Errors.{lending, f_token_deposit_insignificant}
use fluid_solana_programs.Base.Result.{Result, ok, ◌>>=◌, ◌>>◌, fail_if}
use fluid_solana_programs.Math.Words.{u64_max, u128_max}
use fluid_solana_programs.Math.Casting.{cast}
use fluid_solana_programs.Math.SafeMath.{safe_sub, safe_mul, safe_div, safe_div_ceil}
use fluid_solana_programs.Liquidity.Constants.{exchange_prices_precision}
use fluid_solana_programs.Lending.Rewards.{LendingRewardsRateModel}
use fluid_solana_programs.Lending.Price.{Lending, calculate_new_token_exchange_price, update_rates}

-- `amount * price / EXCHANGE_PRICES_PRECISION`, as a u64, rounded up or down.
unfoldable pub assets_at : ℕ → ℕ → Bool → Result ℕ
assets_at price shares round_up = do
  scaled ← safe_mul u128_max shares price
  assets ←
      if round_up
      then safe_div_ceil u128_max scaled exchange_prices_precision
      else safe_div scaled exchange_prices_precision
  cast u64_max assets

unfoldable pub convert_to_assets :
    ℤ → Lending → LendingRewardsRateModel → ℕ → ℕ → ℕ → Bool → Result ℕ
unfolding assets_at
convert_to_assets now l m f_token_supply liquidity_exchange_price shares round_up = do
  price ← calculate_new_token_exchange_price now liquidity_exchange_price l m f_token_supply
  assets_at price shares round_up

unfoldable pub total_assets : ℤ → Lending → LendingRewardsRateModel → ℕ → ℕ → Result ℕ
total_assets now l m f_token_supply liquidity_exchange_price = do
  price ← calculate_new_token_exchange_price now liquidity_exchange_price l m f_token_supply
  scaled ← safe_mul u128_max price f_token_supply
  assets ← safe_div scaled exchange_prices_precision
  cast u64_max assets

unfoldable pub get_liquidity_balance : ℕ → ℕ → Result ℕ
get_liquidity_balance user_supply_position_amount liquidity_exchange_price = do
  scaled ← safe_mul u128_max user_supply_position_amount liquidity_exchange_price
  balance ← safe_div scaled exchange_prices_precision
  cast u64_max balance

-- What the deposit added to the supply of the program, in assets.
unfoldable pub registered_amount : ℕ → ℕ → ℕ → Result ℕ
registered_amount initial_amount final_amount liquidity_price = do
  raw ← safe_sub final_amount initial_amount
  scaled ← safe_mul u128_max raw liquidity_price
  safe_div scaled exchange_prices_precision

-- The shares for an amount, rounded down; none is an error.
unfoldable pub shares_minted : ℕ → ℕ → Result ℕ
shares_minted amount price = do
  scaled ← safe_mul u128_max amount exchange_prices_precision
  quotient ← safe_div scaled price
  shares ← cast u64_max quotient
  fail_if (shares == 0) (lending f_token_deposit_insignificant)
  ok shares

-- `execute_deposit` after the call into the liquidity program: the shares to mint.
unfoldable pub execute_deposit :
    ℤ → LendingRewardsRateModel → ℕ → ℕ → ℕ → ℕ → Lending → Result (ℕ × Lending)
unfolding registered_amount shares_minted
execute_deposit now m f_token_supply initial_amount final_amount liquidity_price l = do
  registered ← registered_amount initial_amount final_amount liquidity_price
  (price, updated) ← update_rates now liquidity_price m f_token_supply l
  shares ← shares_minted registered price
  ok (shares, updated)

-- The shares for assets to withdraw, rounded up.
unfoldable pub shares_to_burn : ℕ → ℕ → Result ℕ
shares_to_burn assets price = do
  scaled ← safe_mul u128_max assets exchange_prices_precision
  quotient ← safe_div_ceil u128_max scaled price
  cast u64_max quotient

-- `execute_withdraw` up to the burn: the shares to burn.
unfoldable pub execute_withdraw :
    ℤ → LendingRewardsRateModel → ℕ → ℕ → ℕ → Lending → Result (ℕ × Lending)
unfolding shares_to_burn
execute_withdraw now m f_token_supply liquidity_price assets l = do
  (price, updated) ← update_rates now liquidity_price m f_token_supply l
  shares ← shares_to_burn assets price
  ok (shares, updated)
