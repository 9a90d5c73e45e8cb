-- ===== src/Lending/Shares/Backed.antt =====
-- The shares are never worth more than what was paid in for them, and what is withdrawn is never worth
-- more than the shares burned (`programs/lending/src/utils`).
use native.Mathlib.Nat.{div-mul-le_self}
use fluid_solana_programs.Base.{ℕ, ◌-◌, ◌*◌, ◌+◌, ◌≤◌, ◌<◌, ◌≡◌, arith, false}
use fluid_solana_programs.Base.Int.{ℤ}
use fluid_solana_programs.Base.Result.{ok, >>=-eq-ok}
use fluid_solana_programs.Math.Words.{u64_max, u128_max}
use fluid_solana_programs.Math.Casting.{cast, cast-eq-ok}
use fluid_solana_programs.Math.SafeMath.{
  safe_add, safe_sub, safe_mul, safe_div, safe_div_ceil, safe_div_ceil-eq-ok,
}
use fluid_solana_programs.Liquidity.Constants.{exchange_prices_precision}
use fluid_solana_programs.Lending.Rewards.{LendingRewardsRateModel}
use fluid_solana_programs.Lending.Price.{
  Lending, grow_price, calculate_new_token_exchange_price, update_rates,
}
use fluid_solana_programs.Lending.Shares.{
  assets_at, registered_amount, shares_minted, shares_to_burn, execute_deposit, execute_withdraw,
}

-- A successful price calculation never returns less than the stored price.
calculate_new_token_exchange_price-ge :
    (now : ℤ) (liquidity_price : ℕ) (l : Lending) (m : LendingRewardsRateModel) (supply : ℕ)
    {price : ℕ}
    → calculate_new_token_exchange_price now liquidity_price l m supply ≡ ok price
    → (l.token_exchange_price ≤ price) × (l.liquidity_exchange_price ≤ liquidity_price)
unfolding calculate_new_token_exchange_price grow_price safe_add
calculate_new_token_exchange_price-ge now liquidity_price l m supply run = ground arith

minted_le :
    (amount price : ℕ) {shares : ℕ}
    → shares_minted amount price ≡ ok shares
    → (shares * price ≤ amount * exchange_prices_precision) × (0 < shares)
unfolding shares_minted cast safe_mul safe_div
minted_le amount price run =
    ground (arith, div-mul-le_self (amount * exchange_prices_precision) price)

-- A deposit that succeeds mints at least one share, and the shares at the new price are worth no more
-- than what the deposit added to the supply of the program. Redeemed at that price, they give back no
-- more than that.
deposit_then_redeem :
    (amount price : ℕ) {shares assets : ℕ}
    → shares_minted amount price ≡ ok shares
    → assets_at price shares false ≡ ok assets
    → (0 < shares) × (assets ≤ amount)
unfolding assets_at cast safe_mul safe_div
deposit_then_redeem amount price {shares} {assets} minted redeemed =
    let (worth, some) = minted_le amount price minted in
    let below = div-mul-le_self (shares * price) exchange_prices_precision in
    ground (arith, worth, some, below)

-- If a withdrawal's shares are computed, they are worth at least the assets at the price, and one
-- share less would not be.
shares_to_burn-eq-ok :
    (assets price : ℕ) {shares : ℕ}
    → shares_to_burn assets price ≡ ok shares
    → (assets * exchange_prices_precision ≤ shares * price)
      × (shares * price < assets * exchange_prices_precision + price)
unfolding shares_to_burn safe_mul
shares_to_burn-eq-ok assets price run =
    let (scaled, s, r1) = >>=-eq-ok (safe_mul u128_max assets exchange_prices_precision) _ run in
    let (quotient, q, r2) = >>=-eq-ok (safe_div_ceil u128_max scaled price) _ r1 in
    let (low, high, _) = safe_div_ceil-eq-ok u128_max scaled price q in
    let (same, _) = cast-eq-ok u64_max quotient r2 in ground (arith, s, low, high, same)

update_rates-eq-ok :
    (now : ℤ) (liquidity_price : ℕ) (m : LendingRewardsRateModel) (supply : ℕ) (l : Lending)
    {price : ℕ} {updated : Lending}
    → update_rates now liquidity_price m supply l ≡ ok (price, updated)
    → (updated.token_exchange_price ≡ price) × (l.token_exchange_price ≤ price)
unfolding update_rates
update_rates-eq-ok now liquidity_price m supply l run =
    let (price, calculated, r) =
      >>=-eq-ok (calculate_new_token_exchange_price now liquidity_price l m supply) _ run in
    let (grown, _) =
      calculate_new_token_exchange_price-ge now liquidity_price l m supply calculated in
    ground (arith, grown, r)

registered_le :
    (before after price : ℕ) {amount : ℕ}
    → registered_amount before after price ≡ ok amount
    → amount * exchange_prices_precision ≤ (after - before) * price
unfolding registered_amount safe_sub safe_mul safe_div
registered_le before after price run =
    ground (arith, div-mul-le_self ((after - before) * price) exchange_prices_precision)

returned : {T : Type 0} (P : T → Type 0) (a b : T) → ok a ≡ ok b → P a → P b
returned P a b h holds = let eq : a ≡ b = cc in rw (← eq) holds

chained : (a b : ℕ) {c : ℕ} → a ≤ b → b ≤ c → a ≤ c
chained a b h k = omega arith

abbrev DepositBacked : ℕ → ℕ → ℕ → ℕ → ℕ × Lending → Type 0
DepositBacked before after liquidity_price old_price (shares, updated) =
    (0 < shares)
    × (shares * updated.token_exchange_price ≤ (after - before) * liquidity_price)
    × (old_price ≤ updated.token_exchange_price)

abbrev WithdrawalBacked : ℕ → ℕ → ℕ × Lending → Type 0
WithdrawalBacked assets old_price (shares, updated) =
    (assets * exchange_prices_precision ≤ shares * updated.token_exchange_price)
    × (shares * updated.token_exchange_price
        < assets * exchange_prices_precision + updated.token_exchange_price)
    × (old_price ≤ updated.token_exchange_price)

-- If a deposit succeeds: it mints at least one share, at the new token price the shares are worth no
-- more than the raw amount that the deposit added to the program's supply is worth at the price of the
-- liquidity layer, and the token price did not fall.
pub execute_deposit-backed :
    (now : ℤ) (m : LendingRewardsRateModel) (supply before after liquidity_price : ℕ) (l : Lending)
    {shares : ℕ} {updated : Lending}
    → execute_deposit now m supply before after liquidity_price l ≡ ok (shares, updated)
    → (0 < shares)
      × (shares * updated.token_exchange_price ≤ (after - before) * liquidity_price)
      × (l.token_exchange_price ≤ updated.token_exchange_price)
unfolding execute_deposit
execute_deposit-backed now m supply before after liquidity_price l run =
    let (registered, paid, r1) = >>=-eq-ok (registered_amount before after liquidity_price) _ run in
    let ((price, new), updates, r2) =
      >>=-eq-ok (update_rates now liquidity_price m supply l) _ r1 in
    let (shares, mints, r3) = >>=-eq-ok (shares_minted registered price) _ r2 in
    let (worth, some) = minted_le registered price mints in
    let (same, grown) = update_rates-eq-ok now liquidity_price m supply l updates in
    let backed = registered_le before after liquidity_price paid in
    returned (DepositBacked before after liquidity_price l.token_exchange_price) (shares, new) _ r3
      (
        some,
        rw same (chained (shares * price) (registered * exchange_prices_precision) worth backed),
        rw same grown,
      )

-- If a withdrawal's shares are computed: at the new token price they are worth at least the assets, by
-- less than one share, and the token price did not fall.
pub execute_withdraw-backed :
    (now : ℤ) (m : LendingRewardsRateModel) (supply liquidity_price assets : ℕ) (l : Lending)
    {shares : ℕ} {updated : Lending}
    → execute_withdraw now m supply liquidity_price assets l ≡ ok (shares, updated)
    → (assets * exchange_prices_precision ≤ shares * updated.token_exchange_price)
      × (shares * updated.token_exchange_price
          < assets * exchange_prices_precision + updated.token_exchange_price)
      × (l.token_exchange_price ≤ updated.token_exchange_price)
unfolding execute_withdraw
execute_withdraw-backed now m supply liquidity_price assets l run =
    let ((price, new), updates, r1) =
      >>=-eq-ok (update_rates now liquidity_price m supply l) _ run in
    let (shares, burns, r2) = >>=-eq-ok (shares_to_burn assets price) _ r1 in
    let (same, grown) = update_rates-eq-ok now liquidity_price m supply l updates in
    let (low, high) = shares_to_burn-eq-ok assets price burns in
    returned (WithdrawalBacked assets l.token_exchange_price) (shares, new) _ r2
      (rw same low, rw same high, rw same grown)
