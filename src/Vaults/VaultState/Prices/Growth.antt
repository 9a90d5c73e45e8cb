-- ===== src/Vaults/VaultState/Prices/Growth.antt =====
-- The vault's prices over time (`programs/vaults/src/state/vault_state.rs`).
use native.Mathlib.Nat.{le-div_iff_mul-le}
use fluid_solana_programs.Base.{ℕ, ◌*◌, ◌/◌, ◌≤◌, ◌<◌, ◌≡◌, arith, ltb, ◌||◌}
use fluid_solana_programs.Base.Int.{ℤ, pos}
use fluid_solana_programs.Base.Result.{ok, fail_if, >>=-eq-ok}
use fluid_solana_programs.Math.SafeMath.{safe_add, safe_mul, safe_div, safe_div_ceil-eq-ok}
use fluid_solana_programs.Math.Words.{u128_max}
use fluid_solana_programs.Vaults.Constants.{exchange_price_scale_factor}
use fluid_solana_programs.Vaults.VaultState.{VaultState}
use fluid_solana_programs.Vaults.VaultState.Prices.{
  RateMagnifiers, magnify, increase, follow_supply, follow_borrow, elapsed, vault_prices,
}

le_div : (a b c : ℕ) → 0 < b → c * b ≤ a → c ≤ a / b
le_div a b c h le = ground (arith, le-div_iff_mul-le {k = b} {x = c} {y = a} h)

mul_le : (a b c : ℕ) → b ≤ c → a * b ≤ a * c
mul_le a b c h = grind arith

increase-eq-ok :
    (price old : ℕ) {percent : ℕ}
    → old ≤ price
    → increase price old ≡ ok percent
    → exchange_price_scale_factor ≤ percent
unfolding increase safe_mul safe_div
increase-eq-ok price old h run = ground (
  arith,
  le_div (price * exchange_price_scale_factor) old exchange_price_scale_factor,
  mul_le exchange_price_scale_factor old price h,
)

follow_supply-eq-ok :
    (liq old price : ℕ) {next : ℕ}
    → old ≤ liq
    → follow_supply liq old price ≡ ok next
    → price ≤ next
unfolding follow_supply safe_mul safe_div
follow_supply-eq-ok liq old price h run =
    let (percent, grew, rest) = >>=-eq-ok (increase liq old) _ run in
    let more = mul_le price exchange_price_scale_factor percent (increase-eq-ok liq old h grew) in
    let kept = le_div (price * percent) exchange_price_scale_factor price (omega arith) more in
    ground (arith, rest, kept)

follow_borrow-eq-ok :
    (liq old price : ℕ) {next : ℕ}
    → old ≤ liq
    → follow_borrow liq old price ≡ ok next
    → price ≤ next
unfolding follow_borrow safe_mul
follow_borrow-eq-ok liq old price h run =
    let (percent, grew, rest) = >>=-eq-ok (increase liq old) _ run in
    let more = mul_le price exchange_price_scale_factor percent (increase-eq-ok liq old h grew) in
    let (_, scaled, ceil) = >>=-eq-ok (safe_mul u128_max price percent) _ rest in
    let (reached, _, _) = safe_div_ceil-eq-ok u128_max _ exchange_price_scale_factor ceil in
    ground (arith, scaled, reached, more)

magnify-eq-ok :
    (m : ℕ) (t price_old price : ℕ) {next : ℕ}
    → magnify (pos m) t price_old price ≡ ok next
    → price ≤ next
unfolding magnify safe_add
magnify-eq-ok m t price_old price run = ground arith

-- What `vault_prices` returns where the prices of the liquidity layer did not fall below the stored
-- ones.
vault_prices-checked :
    (now : ℤ) (c : RateMagnifiers) (liq_supply liq_borrow : ℕ) (v : VaultState) {prices : ℕ × ℕ}
    → vault_prices now c liq_supply liq_borrow v ≡ ok prices
    → (v.liquidity_supply_exchange_price ≤ liq_supply)
      × (v.liquidity_borrow_exchange_price ≤ liq_borrow)
unfolding vault_prices
vault_prices-checked now c liq_supply liq_borrow v run = ground arith

-- Where neither magnifier is negative: if the vault's prices are computed, neither is below the stored
-- one.
pub vault_prices_grow :
    (now : ℤ) (m n liq_supply liq_borrow : ℕ) (v : VaultState) {supply borrow : ℕ}
    → vault_prices now
        (record { supply_rate_magnifier = pos m; borrow_rate_magnifier = pos n })
        liq_supply
        liq_borrow
        v
      ≡ ok (supply, borrow)
    → (v.vault_supply_exchange_price ≤ supply) × (v.vault_borrow_exchange_price ≤ borrow)
unfolding vault_prices
vault_prices_grow now m n liq_supply liq_borrow v run =
    let (kept_supply, kept_borrow) =
      vault_prices-checked now
        (record { supply_rate_magnifier = pos m; borrow_rate_magnifier = pos n }) liq_supply
        liq_borrow v run in
    let (_, _, r1) =
      >>=-eq-ok
        (fail_if
          (ltb liq_supply v.liquidity_supply_exchange_price
            || ltb liq_borrow v.liquidity_borrow_exchange_price)
          _)
        _ run in
    let (followed, f, r2) =
      >>=-eq-ok
        (follow_supply liq_supply v.liquidity_supply_exchange_price v.vault_supply_exchange_price) _
        r1 in
    let (t, _, r3) = >>=-eq-ok (elapsed now v.last_update_timestamp) _ r2 in
    let (s, supplied, r4) =
      >>=-eq-ok (magnify (pos m) t v.vault_supply_exchange_price followed) _ r3 in
    let (owed, o, r5) =
      >>=-eq-ok
        (follow_borrow liq_borrow v.liquidity_borrow_exchange_price v.vault_borrow_exchange_price) _
        r4 in
    let (b, borrowed, r6) = >>=-eq-ok (magnify (pos n) t v.vault_borrow_exchange_price owed) _ r5 in
    let a1 = follow_supply-eq-ok _ _ _ kept_supply f in
    let a2 = follow_borrow-eq-ok _ _ _ kept_borrow o in
    let a3 = magnify-eq-ok m t v.vault_supply_exchange_price followed supplied in
    let a4 = magnify-eq-ok n t v.vault_borrow_exchange_price owed borrowed in
    ground (arith, a1, a2, a3, a4, r6)
