-- ===== src/Vaults/CurrentLiquidity/Amounts.antt =====
-- What a liquidation takes: the totals of `CurrentLiquidity` and the amounts that are paid.
use native.Mathlib.Nat.{div-mul-le_self}
use fluid_solana_programs.Base.{ℕ, ◌+◌, ◌*◌, ◌≤◌, ◌<◌, ◌≡◌, arith, ◌==◌}
use fluid_solana_programs.Base.Result.{ok, >>=-eq-ok, fail_if, ◌>>◌}
use fluid_solana_programs.Base.Errors.{vault, vault_invalid_liquidation}
use fluid_solana_programs.Math.SafeMath.{safe_add, safe_sub, safe_mul, safe_div}
use fluid_solana_programs.Vaults.Constants.{max_liquidation_rounding_diff, x30}
use fluid_solana_programs.Vaults.CurrentLiquidity.{
  CurrentLiquidity, TickMemoryVars, limit_amounts, get_actual_amounts, get_normal_debt_liq,
  get_normal_col_liq, update_totals, set_partials,
}

-- A partial of a tick is strictly between the two ticks around it.
pub set_partials-range :
    (partials : ℕ) (t : TickMemoryVars)
    → (1 ≤ (set_partials partials t).partials) × ((set_partials partials t).partials < x30)
unfolding set_partials
set_partials-range partials t = ground arith

-- Debt and collateral move from what can be liquidated to what has been.
pub update_totals-balanced :
    (debt_liquidated col_liquidated : ℕ) (d : CurrentLiquidity) {e : CurrentLiquidity}
    → update_totals debt_liquidated col_liquidated d ≡ ok e
    → (e.debt + debt_liquidated ≡ d.debt)
      × (e.total_debt_liq ≡ d.total_debt_liq + debt_liquidated)
      × (e.col + col_liquidated ≡ d.col)
      × (e.total_col_liq ≡ d.total_col_liq + col_liquidated)
      × (e.debt_remaining ≡ d.debt_remaining)
unfolding update_totals safe_add safe_sub
update_totals-balanced debt_liquidated col_liquidated d run = ground arith

-- The debt and collateral after the cut: the debt is at most what was asked for, and at most 100 is cut
-- off; the collateral per debt does not rise.
abbrev pub IsLimited : ℕ → ℕ → ℕ → ℕ → ℕ → Type 0
IsLimited debt_amount debt col debt' col' =
    (debt' ≤ debt_amount)
    × (debt' ≤ debt)
    × (debt ≤ debt' + max_liquidation_rounding_diff)
    × (col' * debt ≤ col * debt')

-- The collateral per debt does not rise where the debt is cut to what was asked for.
limit_amounts-bounds :
    (debt_amount debt col : ℕ) {debt' col' : ℕ}
    → limit_amounts debt_amount debt col ≡ ok (debt', col')
    → IsLimited debt_amount debt col debt' col'
unfolding limit_amounts safe_sub safe_mul safe_div
limit_amounts-bounds debt_amount debt col run =
    ground (arith, div-mul-le_self (col * debt_amount) debt)

pub positive_amounts :
    (debt col : ℕ) {debt' col' : ℕ}
    → ◌>>◌ {T = ℕ × ℕ} (fail_if (debt == 0) (vault vault_invalid_liquidation)) (ok (debt, col))
      ≡ ok (debt', col')
    → (debt ≡ debt') × (col ≡ col') × (0 < debt')
positive_amounts debt col run = ground arith

returned_amounts :
    (debt_amount debt₀ col₀ debt col : ℕ) {debt' col' : ℕ}
    → IsLimited debt_amount debt₀ col₀ debt col
    → (debt ≡ debt') × (col ≡ col') × (0 < debt')
    → IsLimited debt_amount debt₀ col₀ debt' col'
returned_amounts debt_amount debt₀ col₀ debt col bounds (same_debt, same_col, p) =
    rw (← same_debt, ← same_col) bounds

-- If `get_actual_amounts` returns: the debt to pay is positive, at most the amount asked for, and at
-- most 100 below the liquidated debt at its exchange price; and the collateral received per debt paid
-- is at most the collateral liquidated, at its exchange price, per debt liquidated.
pub get_actual_amounts-bounds :
    (borrow_ex_price supply_ex_price debt_amount : ℕ) (d : CurrentLiquidity) {debt' col' : ℕ}
    → get_actual_amounts borrow_ex_price supply_ex_price debt_amount d ≡ ok (debt', col')
    → (debt : ℕ) × (col : ℕ) × (get_normal_debt_liq borrow_ex_price d ≡ ok debt)
      × (get_normal_col_liq supply_ex_price d ≡ ok col)
      × (0 < debt')
      × IsLimited debt_amount debt col debt' col'
unfolding get_actual_amounts
get_actual_amounts-bounds borrow_ex_price supply_ex_price debt_amount d run =
    let (debt, run_debt, rest) = >>=-eq-ok (get_normal_debt_liq borrow_ex_price d) _ run in
    let (col, run_col, rest') = >>=-eq-ok (get_normal_col_liq supply_ex_price d) _ rest in
    let (limited, run_limit, last) = >>=-eq-ok (limit_amounts debt_amount debt col) _ rest' in
    let bounds = limit_amounts-bounds debt_amount debt col run_limit in
    let same = positive_amounts limited.0 limited.1 last in
    (
      debt,
      col,
      run_debt,
      run_col,
      same.2,
      returned_amounts debt_amount debt col limited.0 limited.1 bounds same,
    )
