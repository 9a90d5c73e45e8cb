-- ===== src/Vaults/Liquidation/Paid/Amounts.antt =====
-- The amounts that a liquidation pays (`liquidate` and `get_actual_amounts` of `programs/vaults/src`).
use native.Mathlib.Nat.{div-mul-le_self, mul-le-mul}
use fluid_solana_programs.Base.{ℕ, ◌+◌, ◌-◌, ◌*◌, ◌/◌, ◌^◌, ◌≤◌, ◌≡◌, ◌∙◌, arith, ltb, false}
use fluid_solana_programs.Base.Int.{ℤ, pos}
use fluid_solana_programs.Base.Result.{ok, >>=-eq-ok, ok-pair}
use fluid_solana_programs.Math.Words.{u128_max, i128_max}
use fluid_solana_programs.Math.Casting.{
  cast, cast_to_signed, cast_to_unsigned, cast_to_signed-eq-ok, cast_to_unsigned-eq-ok,
}
use fluid_solana_programs.Math.SafeMath.{
  safe_mul, safe_div, safe_sub, safe_mul-eq-ok, safe_div-eq-ok, safe_div_ceil-eq-ok,
}
use fluid_solana_programs.Math.Signed
use fluid_solana_programs.Liquidity.Constants.{exchange_prices_precision}
use fluid_solana_programs.Vaults.Constants.{max_token_decimals, rate_output}
use fluid_solana_programs.Vaults.Common.{get_scale, unscale_amounts, unscale_amounts_up}
use fluid_solana_programs.Vaults.CurrentLiquidity.{
  CurrentLiquidity, limit_amounts, get_actual_amounts, get_normal_debt_liq, get_normal_col_liq,
}
use fluid_solana_programs.Vaults.CurrentLiquidity.Amounts.{positive_amounts}
use fluid_solana_programs.Vaults.VaultState.{VaultState, reduce_total_supply, reduce_total_borrow}
use fluid_solana_programs.Vaults.Liquidation.Entry.{unscaled}

get_scale-eq :
    (decimals : ℕ) {s : ℕ} → get_scale decimals ≡ ok s → s ≡ 10 ^ (max_token_decimals - decimals)
unfolding get_scale
get_scale-eq decimals run = ground arith

ceil-bounds :
    (amount s n : ℕ) {a signed z : ℤ}
    → a ≡ pos amount
    → signed ≡ pos s
    → z ≡ pos n
    → Signed.safe_div_ceil i128_max a signed ≡ ok z
    → amount ≤ n * s
ceil-bounds amount s n is_amount is_s is_n run =
    let run' : Signed.safe_div_ceil i128_max (pos amount) (pos s) ≡ ok (pos n) =
      rw (← is_amount, ← is_s, ← is_n) run in
    let (q, e, low, _, _) = Signed.safe_div_ceil_pos i128_max amount s run' in
    let same : n ≡ q = cc in rw same low

floor-bounds :
    (amount s n : ℕ) {a signed z : ℤ}
    → a ≡ pos amount
    → signed ≡ pos s
    → z ≡ pos n
    → Signed.safe_div i128_max a signed ≡ ok z
    → n * s ≤ amount
floor-bounds amount s n is_amount is_s is_n run =
    let run' : Signed.safe_div i128_max (pos amount) (pos s) ≡ ok (pos n) =
      rw (← is_amount, ← is_s, ← is_n) run in
    let (e, _) = Signed.safe_div_pos i128_max amount s run' in
    let same : n ≡ amount / s = cc in rw same (div-mul-le_self amount s)

unscale_up-bounds :
    (amount decimals : ℕ) {a z : ℤ} {n : ℕ}
    → cast_to_signed i128_max amount ≡ ok a
    → unscale_amounts_up a decimals ≡ ok z
    → cast_to_unsigned u128_max z ≡ ok n
    → amount ≤ n * 10 ^ (max_token_decimals - decimals)
unfolding unscale_amounts_up
unscale_up-bounds amount decimals {z = z} {n = n} to_a run to_n =
    let (s, run_s, run₁) = >>=-eq-ok (get_scale decimals) _ run in
    let (signed, run_signed, run₂) = >>=-eq-ok (cast_to_signed i128_max s) _ run₁ in
    let is_amount = (cast_to_signed-eq-ok i128_max amount to_a).0 in
    let is_s = (cast_to_signed-eq-ok i128_max s run_signed).0 in
    let is_n = (cast_to_unsigned-eq-ok u128_max z to_n).0 in
    rw (← get_scale-eq decimals run_s) (ceil-bounds amount s n is_amount is_s is_n run₂)

unscale_down-bounds :
    (amount decimals : ℕ) {a z : ℤ} {n : ℕ}
    → cast_to_signed i128_max amount ≡ ok a
    → unscale_amounts a decimals ≡ ok z
    → cast_to_unsigned u128_max z ≡ ok n
    → n * 10 ^ (max_token_decimals - decimals) ≤ amount
unfolding unscale_amounts
unscale_down-bounds amount decimals {z = z} {n = n} to_a run to_n =
    let (s, run_s, run₁) = >>=-eq-ok (get_scale decimals) _ run in
    let (signed, run_signed, run₂) = >>=-eq-ok (cast_to_signed i128_max s) _ run₁ in
    let is_amount = (cast_to_signed-eq-ok i128_max amount to_a).0 in
    let is_s = (cast_to_signed-eq-ok i128_max s run_signed).0 in
    let is_n = (cast_to_unsigned-eq-ok u128_max z to_n).0 in
    rw (← get_scale-eq decimals run_s) (floor-bounds amount s n is_amount is_s is_n run₂)

-- The cut is not reached where no more debt is liquidated than was asked for.
limit_amounts-uncut :
    (debt_amount debt col : ℕ) {debt' col' : ℕ}
    → debt ≤ debt_amount
    → limit_amounts debt_amount debt col ≡ ok (debt', col')
    → (debt ≡ debt') × (col ≡ col')
unfolding limit_amounts
limit_amounts-uncut debt_amount debt col below run = ground (arith, below)

-- What is paid covers the debt, and what is received is covered by the collateral.
abbrev pub Covers : ℕ → ℕ → ℕ → ℕ → ℕ → ℕ → Type 0
Covers borrow_decimals supply_decimals debt col paid received =
    (debt ≤ paid * 10 ^ (max_token_decimals - borrow_decimals))
    × (received * 10 ^ (max_token_decimals - supply_decimals) ≤ col)

pub unscaled-Covers :
    (borrow_decimals supply_decimals debt col : ℕ) {paid received : ℕ}
    → unscaled borrow_decimals supply_decimals debt col ≡ ok (paid, received)
    → Covers borrow_decimals supply_decimals debt col paid received
unfolding unscaled
unscaled-Covers borrow_decimals supply_decimals debt col run =
    let (signed_debt, run_debt, run₁) = >>=-eq-ok (cast_to_signed i128_max debt) _ run in
    let (debt_up, run_up, run₂) =
      >>=-eq-ok (unscale_amounts_up signed_debt borrow_decimals) _ run₁ in
    let (actual_debt, run_paid, run₃) = >>=-eq-ok (cast_to_unsigned u128_max debt_up) _ run₂ in
    let (signed_col, run_col, run₄) = >>=-eq-ok (cast_to_signed i128_max col) _ run₃ in
    let (col_down, run_down, run₅) =
      >>=-eq-ok (unscale_amounts signed_col supply_decimals) _ run₄ in
    let (actual_col, run_received, last) = >>=-eq-ok (cast_to_unsigned u128_max col_down) _ run₅ in
    let (same_debt, same_col) = ok-pair last in
    (
      rw (← same_debt) (unscale_up-bounds debt borrow_decimals run_debt run_up run_paid),
      rw (← same_col) (unscale_down-bounds col supply_decimals run_col run_down run_received),
    )

-- The debt at its price, rounded up, is at most what was asked for.
normal_debt-le :
    (borrow_ex_price amount : ℕ) (d : CurrentLiquidity) {debt : ℕ}
    → d.total_debt_liq * borrow_ex_price ≤ amount * exchange_prices_precision
    → get_normal_debt_liq borrow_ex_price d ≡ ok debt
    → (debt ≤ amount) × (d.total_debt_liq * borrow_ex_price ≤ debt * exchange_prices_precision)
unfolding get_normal_debt_liq
normal_debt-le borrow_ex_price amount d below run =
    let (scaled, run_mul, last) =
      >>=-eq-ok (safe_mul u128_max d.total_debt_liq borrow_ex_price) _ run in
    let (is_scaled, _) = safe_mul-eq-ok u128_max d.total_debt_liq borrow_ex_price run_mul in
    let (low, high, _) = safe_div_ceil-eq-ok u128_max scaled exchange_prices_precision last in
    (omega arith, omega arith)

normal_col-le :
    (supply_ex_price : ℕ) (d : CurrentLiquidity) {col : ℕ}
    → get_normal_col_liq supply_ex_price d ≡ ok col
    → col * exchange_prices_precision ≤ d.total_col_liq * supply_ex_price
unfolding get_normal_col_liq
normal_col-le supply_ex_price d run =
    let (scaled, run_mul, last) =
      >>=-eq-ok (safe_mul u128_max d.total_col_liq supply_ex_price) _ run in
    let (is_scaled, _) = safe_mul-eq-ok u128_max d.total_col_liq supply_ex_price run_mul in
    let (is_col, _) = safe_div-eq-ok scaled exchange_prices_precision last in omega arith

-- The amounts where no more is liquidated than was asked for: nothing is cut off.
pub actual-uncut :
    (borrow_ex_price supply_ex_price amount : ℕ) (d : CurrentLiquidity) {debt' col' : ℕ}
    → d.total_debt_liq * borrow_ex_price ≤ amount * exchange_prices_precision
    → get_actual_amounts borrow_ex_price supply_ex_price amount d ≡ ok (debt', col')
    → (d.total_debt_liq * borrow_ex_price ≤ debt' * exchange_prices_precision)
      × (col' * exchange_prices_precision ≤ d.total_col_liq * supply_ex_price)
unfolding get_actual_amounts
actual-uncut borrow_ex_price supply_ex_price amount d below run =
    let (debt, run_debt, run₁) = >>=-eq-ok (get_normal_debt_liq borrow_ex_price d) _ run in
    let (col, run_col, run₂) = >>=-eq-ok (get_normal_col_liq supply_ex_price d) _ run₁ in
    let ((limited_debt, limited_col), run_limit, last) =
      >>=-eq-ok (limit_amounts amount debt col) _ run₂ in
    let (at_most, covered) = normal_debt-le borrow_ex_price amount d below run_debt in
    let (same_debt, same_col) = limit_amounts-uncut amount debt col at_most run_limit in
    let (same_debt', same_col', _) = positive_amounts limited_debt limited_col last in
    let paid_debt : debt ≡ _ = same_debt ∙ same_debt' in
    let paid_col : col ≡ _ = same_col ∙ same_col' in
    (rw (← paid_debt) covered, rw (← paid_col) (normal_col-le supply_ex_price d run_col))

-- The totals of a vault after `amount` of debt and `col` of collateral was liquidated.
abbrev pub IsReduced : ℕ → ℕ → VaultState → VaultState → Type 0
IsReduced debt col v w =
    (w.total_borrow + debt ≡ v.total_borrow) × (w.total_supply + col ≡ v.total_supply)

pub totals-IsReduced :
    (debt col : ℕ) (v : VaultState) {u w : VaultState}
    → reduce_total_supply col v ≡ ok u
    → reduce_total_borrow debt u ≡ ok w
    → IsReduced debt col v w
unfolding reduce_total_supply reduce_total_borrow cast safe_sub
totals-IsReduced debt col v run_supply run_borrow = ground (arith, run_supply, run_borrow)

-- What has been liquidated is paid for at its price, and what is received is no more than the
-- collateral at its price and no less than the limit on slippage asks for.
abbrev pub IsFair : ℕ → ℕ → ℕ → ℕ → ℕ → CurrentLiquidity → ℕ → ℕ → Type 0
IsFair borrow_ex_price supply_ex_price borrow_decimals supply_decimals col_per_unit_debt d paid
      received =
    (d.total_debt_liq * borrow_ex_price
      ≤ paid * 10 ^ (max_token_decimals - borrow_decimals) * exchange_prices_precision)
    × (received * 10 ^ (max_token_decimals - supply_decimals) * exchange_prices_precision
        ≤ d.total_col_liq * supply_ex_price)
    × (col_per_unit_debt * paid ≤ received * rate_output)

pub slippage-le :
    (paid received limit : ℕ) {scaled per_unit : ℕ}
    → safe_mul u128_max received rate_output ≡ ok scaled
    → safe_div scaled paid ≡ ok per_unit
    → ltb per_unit limit ≡ false
    → limit * paid ≤ received * rate_output
slippage-le paid received limit {scaled} {per_unit} run_mul run_div within =
    let (is_scaled, _) = safe_mul-eq-ok u128_max received rate_output run_mul in
    let (is_unit, _) = safe_div-eq-ok scaled paid run_div in
    let le : limit ≤ per_unit = ground (arith, within) in
    let low : limit * paid ≤ per_unit * paid = mul-le-mul {m₂ = paid} le (omega arith) in
    let high : scaled / paid * paid ≤ scaled = div-mul-le_self scaled paid in
    let up : per_unit * paid ≤ scaled = rw is_unit high in omega arith

pub fair :
    (borrow_ex_price supply_ex_price borrow_decimals supply_decimals limit : ℕ)
    (d : CurrentLiquidity) (debt col paid received : ℕ)
    → (d.total_debt_liq * borrow_ex_price ≤ debt * exchange_prices_precision)
      × (col * exchange_prices_precision ≤ d.total_col_liq * supply_ex_price)
    → Covers borrow_decimals supply_decimals debt col paid received
    → limit * paid ≤ received * rate_output
    → IsFair borrow_ex_price supply_ex_price borrow_decimals supply_decimals limit d paid received
fair borrow_ex_price supply_ex_price borrow_decimals supply_decimals limit d debt col paid received
      (covered, given) (up, down) within =
    (omega arith, omega arith, within)
