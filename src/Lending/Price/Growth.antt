-- ===== src/Lending/Price/Growth.antt =====
-- The growth of the token price (`programs/lending/src/utils/helpers.rs`).
use native.Mathlib.Nat.{div-mul-le_self, mul-le-mul_left, mul-le-mul_right}
use fluid_solana_programs.Base.{ℕ, ◌-◌, ◌*◌, ◌+◌, ◌≤◌, ◌≡◌, arith}
use fluid_solana_programs.Base.Result.{ok}
use fluid_solana_programs.Math.Casting.{cast}
use fluid_solana_programs.Math.SafeMath.{safe_add, safe_sub, safe_mul, safe_div}
use fluid_solana_programs.Lending.Rewards.{return_percent_precision}
use fluid_solana_programs.Lending.Price.{liquidity_return, grow_price}

-- The growth of a price without rewards.
growth_le :
    (price percent growth difference old : ℕ)
    → growth * return_percent_precision ≤ price * percent
    → percent * old ≤ difference * return_percent_precision
    → growth * old ≤ price * difference
growth_le price percent growth difference old h k =
    let a = mul-le-mul_right {m = growth * return_percent_precision} {n = price * percent} old h in
    let b =
      mul-le-mul_left {m = percent * old} {n = difference * return_percent_precision} price k in
    grind (arith, a, b)

liquidity_return-eq-ok :
    (new_price old_price : ℕ) {percent : ℕ}
    → liquidity_return new_price old_price ≡ ok percent
    → (percent * old_price ≤ (new_price - old_price) * return_percent_precision)
      × (old_price ≤ new_price)
unfolding liquidity_return safe_sub safe_mul safe_div
liquidity_return-eq-ok new_price old_price run =
    ground (arith, div-mul-le_self ((new_price - old_price) * return_percent_precision) old_price)

grow_price-eq-ok :
    (price percent : ℕ) {next : ℕ}
    → grow_price price percent ≡ ok next
    → (price ≤ next) × ((next - price) * return_percent_precision ≤ price * percent)
unfolding grow_price safe_mul safe_div safe_add cast
grow_price-eq-ok price percent run =
    ground (arith, div-mul-le_self (price * percent) return_percent_precision)

sum_growth : (price old d e : ℕ) → d * old ≤ price * e → (price + d) * old ≤ price * (old + e)
sum_growth price old d e h = grind arith

split_growth :
    (price next old new d e : ℕ)
    → next ≡ price + d
    → new ≡ old + e
    → d * old ≤ price * e
    → next * old ≤ price * new
split_growth price next old new d e h k le = rw (h, k) (sum_growth price old d e le)

scaled_growth :
    (price next old new : ℕ)
    → price ≤ next
    → old ≤ new
    → (next - price) * old ≤ price * (new - old)
    → next * old ≤ price * new
scaled_growth price next old new h k le =
    let up : next ≡ price + (next - price) = omega arith in
    let rose : new ≡ old + (new - old) = omega arith in
    split_growth price next old new (next - price) (new - old) up rose le

-- If the growth of the liquidity layer's price is passed on without rewards: the token price grows by
-- no greater share than the price of the layer.
pub grow_price-le :
    (new_price old_price price : ℕ) {percent next : ℕ}
    → liquidity_return new_price old_price ≡ ok percent
    → grow_price price percent ≡ ok next
    → next * old_price ≤ price * new_price
grow_price-le new_price old_price price {percent} {next} layer_grew price_grew =
    let (percent_le, rose) = liquidity_return-eq-ok new_price old_price layer_grew in
    let (up, next_le) = grow_price-eq-ok price percent price_grew in
    let limit =
      growth_le price percent (next - price) (new_price - old_price) old_price next_le percent_le in
    scaled_growth price next old_price new_price up rose limit
