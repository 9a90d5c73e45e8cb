-- ===== src/Liquidity/TokenReserve/Revenue.antt =====
-- `calc_revenue` of `programs/liquidity/src/state/token_reserve.rs`: what the vault holds beyond what
-- suppliers and claims are owed.
use fluid_solana_programs.Base.{ℕ, ◌+◌, ◌-◌, ◌*◌, ◌^◌, ◌≤◌, ◌≡◌, ◌≢◌, ltb, if◌then◌else◌, arith}
use fluid_solana_programs.Base.Int.{ℤ}
use fluid_solana_programs.Base.Result.{Result, ok, ◌>>=◌, Ensures}
use fluid_solana_programs.Math.Words.{u128_max}
use fluid_solana_programs.Math.SafeMath.{safe_add, safe_mul, safe_div, safe_div_ceil}
use fluid_solana_programs.Liquidity.Constants.{exchange_prices_precision}
use fluid_solana_programs.Liquidity.TokenReserve.{TokenReserve}
use fluid_solana_programs.Liquidity.TokenReserve.Prices.{calculate_exchange_prices}

unfoldable pub get_total_supply_ceil : TokenReserve → ℕ → Result ℕ
get_total_supply_ceil r supply_price = do
  scaled ← safe_mul u128_max r.total_supply_with_interest supply_price
  normal ← safe_div_ceil u128_max scaled exchange_prices_precision
  safe_add u128_max r.total_supply_interest_free normal

unfoldable pub get_total_borrow : TokenReserve → ℕ → Result ℕ
get_total_borrow r borrow_price = do
  scaled ← safe_mul u128_max r.total_borrow_with_interest borrow_price
  normal ← safe_div scaled exchange_prices_precision
  safe_add u128_max r.total_borrow_interest_free normal

unfoldable pub calc_revenue : ℤ → ℕ → TokenReserve → Result ℕ
calc_revenue now balance r = do
  (supply_price, borrow_price) ← calculate_exchange_prices now r
  total_supply ← get_total_supply_ceil r supply_price
  if ltb 0 total_supply
      then (do
        total_borrow ← get_total_borrow r borrow_price
        funds ← safe_add u128_max balance total_borrow
        ok (funds - r.total_claim_amount - total_supply))
      else ok (balance - r.total_claim_amount)

-- What is owed to suppliers and what borrowers owe at given prices, in exact fractions of 1e12.
abbrev pub supplied : TokenReserve → ℕ → ℕ
supplied r price = r.total_supply_with_interest * price + r.total_supply_interest_free * 10 ^ 12

abbrev pub borrowed : TokenReserve → ℕ → ℕ
borrowed r price = r.total_borrow_with_interest * price + r.total_borrow_interest_free * 10 ^ 12

total_supply-Ensures :
    (r : TokenReserve) (price : ℕ)
    → Ensures (λ t. supplied r price ≤ t * 10 ^ 12) (get_total_supply_ceil r price)
unfolding get_total_supply_ceil safe_mul safe_div_ceil safe_add
total_supply-Ensures r price = ground arith

total_borrow-Ensures :
    (r : TokenReserve) (price : ℕ)
    → Ensures (λ t. t * 10 ^ 12 ≤ borrowed r price) (get_total_borrow r price)
unfolding get_total_borrow safe_mul safe_div safe_add
total_borrow-Ensures r price = ground arith

-- Collecting revenue never touches what is owed: where `calc_revenue` finds any, the balance less the
-- revenue still covers the claims and, with what the borrowers owe, the suppliers, valued exactly at
-- the prices of the time.
pub calc_revenue_solvent :
    (now : ℤ) (balance : ℕ) (r : TokenReserve) {revenue s b : ℕ}
    → calculate_exchange_prices now r ≡ ok (s, b)
    → calc_revenue now balance r ≡ ok revenue
    → revenue ≢ 0
    → (revenue + r.total_claim_amount) * 10 ^ 12 + supplied r s ≤ balance * 10 ^ 12 + borrowed r b
unfolding calc_revenue safe_add
calc_revenue_solvent now balance r {revenue} {s} {b} prices h some_revenue =
    ground (arith, total_supply-Ensures r s, total_borrow-Ensures r b)
