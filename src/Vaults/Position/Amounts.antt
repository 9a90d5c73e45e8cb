-- ===== src/Vaults/Position/Amounts.antt =====
-- What the new position of `get_new_position_info` (`programs/vaults/src/state/position.rs`) is worth.
-- Products with an exchange price are compared with products with its precision.
use native.Mathlib.Decide.{dec_le}
use native.Mathlib.Nat.{div-mul-le_self, mul-le-mul_right}
use fluid_solana_programs.Base.{
  ℕ, suc, ◌+◌, ◌-◌, ◌*◌, ◌/◌, ◌≤◌, ◌<◌, ◌≡◌, arith, sym, ◌∙◌, true, inl, inr, Bool-cases, ◌==◌, ◌^◌,
}
use fluid_solana_programs.Base.Int.{ℤ, pos, negsuc, pos_part, neg_part, ltb_ℤ}
use fluid_solana_programs.Base.Result.{ok, >>=-eq-ok, run_if, run_else}
use fluid_solana_programs.Math.Words.{u128_max}
use fluid_solana_programs.Math.SafeMath.{
  safe_add, safe_sub, safe_mul, safe_div, safe_div_ceil, safe_div_ceil-eq-ok, safe_div-eq-ok,
}
use fluid_solana_programs.Math.Casting.{cast_to_signed}
use fluid_solana_programs.Math.Signed
use fluid_solana_programs.Liquidity.Constants.{exchange_prices_precision}
use fluid_solana_programs.Vaults.Position.{
  AmountInfo, i128_min, VaultExchangePrices, change_collateral, add_borrow, change_debt,
  get_new_position_info,
}

floor_le : (a b : ℕ) {c : ℕ} → safe_div a b ≡ ok c → c * b ≤ a
floor_le a b run = ground (arith, safe_div-eq-ok a b run, div-mul-le_self a b)

-- Raw collateral `after` is worth no more than `before` with what was paid in, less what was paid out.
abbrev pub CoveredCollateral : ℕ → ℕ → ℕ → ℤ → Type 0
CoveredCollateral price before after amount =
    after * price + neg_part amount * exchange_prices_precision
    ≤ before * price + pos_part amount * exchange_prices_precision

-- Raw debt `after` is worth no less than `before` with what was lent, less what was paid back.
abbrev pub CoveredDebt : ℕ → ℕ → ℕ → ℤ → Type 0
CoveredDebt price before after amount =
    before * price + pos_part amount * exchange_prices_precision
    ≤ after * price + neg_part amount * exchange_prices_precision

sum_le : (a b p s : ℕ) → b * p ≤ s → (a + b) * p ≤ a * p + s
sum_le a b p s h = grind arith

difference_le : (a b p s : ℕ) → b ≤ a → s ≤ b * p → (a - b) * p + s ≤ a * p
difference_le a b p s h k = grind arith

deposit_covered :
    (price n col : ℕ) {amount : ℤ} {after : ℕ}
    → change_collateral price (pos n) col ≡ ok (amount, after)
    → CoveredCollateral price col after amount
unfolding change_collateral safe_mul safe_add safe_div
deposit_covered price n col run =
    let scaled = n * exchange_prices_precision in
    let below = sum_le col (scaled / price) price scaled (div-mul-le_self scaled price) in
    ground (arith, below)

withdrawal_covered :
    (price n col : ℕ) {amount : ℤ} {after : ℕ}
    → n < 2 ^ 127 - 1
    → change_collateral price (negsuc n) col ≡ ok (amount, after)
    → CoveredCollateral price col after amount
unfolding change_collateral safe_mul
withdrawal_covered price n col partial run =
    let part : ltb_ℤ i128_min (negsuc n) ≡ true = ground arith in
    let (scaled, s, r1) =
      >>=-eq-ok (safe_mul u128_max (n + 1) exchange_prices_precision) _
        (run_if (ltb_ℤ i128_min (negsuc n)) _ _ part run) in
    let (raw, d, r2) = >>=-eq-ok (safe_div_ceil u128_max scaled price) _ r1 in
    let (reached, _, _) = safe_div_ceil-eq-ok u128_max scaled price d in
    let less = difference_le col raw price scaled in ground (arith, s, reached, less, r2)

full_withdrawal_covered :
    (price col : ℕ) {amount : ℤ} {after : ℕ}
    → change_collateral price i128_min col ≡ ok (amount, after)
    → CoveredCollateral price col after amount
unfolding change_collateral safe_mul safe_div cast_to_signed Signed.safe_mul Signed.safe_add
full_withdrawal_covered price col run =
    let paid = div-mul-le_self (col * price) exchange_prices_precision in ground (arith, paid)

grow_le : (debt raw after p s : ℕ) → debt + raw ≤ after → s ≤ raw * p → debt * p + s ≤ after * p
grow_le debt raw after p s h k = grind (arith, mul-le-mul_right {m = debt + raw} {n = after} p h)

payback_le :
    (debt covered p s : ℕ)
    → covered * p ≤ s
    → covered - 1 ≤ debt
    → debt * p ≤ (debt - (covered - 1)) * p + s
payback_le debt covered p s h k =
    grind (arith, mul-le-mul_right {m = covered - 1} {n = covered} p (omega arith))

-- What is left of the borrow once the raw amount is known: the fee only adds to the debt.
add_borrow-eq-ok :
    (fee raw debt : ℕ) {total : ℕ} → add_borrow fee raw debt ≡ ok total → debt + raw ≤ total
unfolding add_borrow safe_add
add_borrow-eq-ok fee raw debt run = ground arith

borrow_covered :
    (price fee n debt : ℕ) {amount : ℤ} {after : ℕ}
    → change_debt price fee (pos n) debt ≡ ok (amount, after)
    → CoveredDebt price debt after amount
unfolding change_debt safe_mul safe_add
borrow_covered price fee n debt {amount} {after} run = elim (Bool-cases (n == 0)) [
  | inl none ↦ ground arith
  | inr some ↦
      let (scaled, s, r1) =
        >>=-eq-ok (safe_mul u128_max n exchange_prices_precision) _
          (run_else (n == 0) _ _ some run) in
      let (raw, d, r2) = >>=-eq-ok (safe_div_ceil u128_max scaled price) _ r1 in
      let (reached, _, _) = safe_div_ceil-eq-ok u128_max scaled price d in
      let (total, t, r3) = >>=-eq-ok (add_borrow fee raw debt) _ r2 in
      let more = grow_le debt raw total price scaled (add_borrow-eq-ok fee raw debt t) reached in
      ground (arith, more, s, r3)
]

payback_covered :
    (price fee n debt : ℕ) {amount : ℤ} {after : ℕ}
    → n < 2 ^ 127 - 1
    → change_debt price fee (negsuc n) debt ≡ ok (amount, after)
    → CoveredDebt price debt after amount
unfolding change_debt safe_mul safe_div safe_sub
payback_covered price fee n debt partial run =
    let part : ltb_ℤ i128_min (negsuc n) ≡ true = ground arith in
    let scaled = (n + 1) * exchange_prices_precision in
    let paid = payback_le debt (scaled / price) price scaled (div-mul-le_self scaled price) in
    let r = run_if (ltb_ℤ i128_min (negsuc n)) _ _ part run in ground (arith, paid, r)

full_payback_covered :
    (price fee debt : ℕ) {amount : ℤ} {after : ℕ}
    → change_debt price fee i128_min debt ≡ ok (amount, after)
    → CoveredDebt price debt after amount
unfolding change_debt safe_mul cast_to_signed Signed.safe_mul
full_payback_covered price fee debt run =
    let (scaled, s, r1) = >>=-eq-ok (safe_mul u128_max debt price) _ run in
    let (all, d, r2) = >>=-eq-ok (safe_div_ceil u128_max scaled exchange_prices_precision) _ r1 in
    let (reached, _, _) = safe_div_ceil-eq-ok u128_max scaled exchange_prices_precision d in
    ground (arith, s, reached, r2)

same_collateral :
    (price : ℕ) (a b : ℤ) (col : ℕ)
    → a ≡ b
    → change_collateral price a col ≡ change_collateral price b col
same_collateral price a b col eq = cc

same_debt :
    (price fee : ℕ) (a b : ℤ) (debt : ℕ)
    → a ≡ b
    → change_debt price fee a debt ≡ change_debt price fee b debt
same_debt price fee a b debt eq = cc

change_collateral-covered :
    (price : ℕ) (new_col : ℤ) (col : ℕ) {amount : ℤ} {after : ℕ}
    → change_collateral price new_col col ≡ ok (amount, after)
    → CoveredCollateral price col after amount
unfolding change_collateral
change_collateral-covered price (pos n) col run = deposit_covered price n col run
change_collateral-covered price (negsuc n) col {amount} {after} run =
    elim (dec_le (suc n) (2 ^ 127 - 1)) [
      | yes partial ↦ withdrawal_covered price n col partial run
      | no all ↦
          let full : negsuc n ≡ i128_min = ground arith in
          let same_run = sym (same_collateral price (negsuc n) i128_min col full) ∙ run in
          full_withdrawal_covered price col same_run
    ]

change_debt-covered :
    (price fee : ℕ) (new_debt : ℤ) (debt : ℕ) {amount : ℤ} {after : ℕ}
    → change_debt price fee new_debt debt ≡ ok (amount, after)
    → CoveredDebt price debt after amount
unfolding change_debt
change_debt-covered price fee (pos n) debt run = borrow_covered price fee n debt run
change_debt-covered price fee (negsuc n) debt {amount} {after} run =
    elim (dec_le (suc n) (2 ^ 127 - 1)) [
      | yes partial ↦ payback_covered price fee n debt partial run
      | no all ↦
          let full : negsuc n ≡ i128_min = ground arith in
          let same_run = sym (same_debt price fee (negsuc n) i128_min debt full) ∙ run in
          full_payback_covered price fee debt same_run
    ]

-- If `get_new_position_info` returns: with raw amounts counted at the exchange prices, the collateral
-- is worth no more than before with what the user pays in, less what is paid out, and the debt is
-- worth no less than before with what the user borrows, less what is paid back. This holds of every
-- deposit, withdrawal, borrow and payback, those of everything (`i128::MIN`) included.
pub get_new_position_info-covered :
    (info : AmountInfo) (prices : VaultExchangePrices) {new_col new_debt : ℤ} {col debt : ℕ}
    → get_new_position_info info prices ≡ ok (new_col, new_debt, col, debt)
    → CoveredCollateral prices.supply_ex_price info.col_raw col new_col
      × CoveredDebt prices.borrow_ex_price info.debt_raw debt new_debt
unfolding get_new_position_info
get_new_position_info-covered info prices run =
    let ((a, c), changed, r1) =
      >>=-eq-ok (change_collateral prices.supply_ex_price info.new_col info.col_raw) _ run in
    let ((b, d), owed, r2) =
      >>=-eq-ok (change_debt prices.borrow_ex_price prices.borrow_fee info.new_debt info.debt_raw) _
        r1 in
    let left = change_collateral-covered prices.supply_ex_price info.new_col info.col_raw changed in
    let right =
      change_debt-covered prices.borrow_ex_price prices.borrow_fee info.new_debt info.debt_raw
        owed in
    ground (arith, left, right, r2)
