-- ===== src/Vaults/Liquidation/Paid.antt =====
-- What a liquidation (`liquidate` of `programs/vaults/src/module/user.rs`) asks of the liquidator and
-- what it gives, from its first check to its last.
mod Amounts
mod Tests
use native.Mathlib.Nat.{div-mul-le_self, mul-le-mul}
use fluid_solana_programs.Base.{
  ℕ, ◌+◌, ◌-◌, ◌*◌, ◌/◌, ◌^◌, ◌≤◌, ◌<◌, ◌≡◌, refl, ◌∙◌, arith, ltb, Bool, true, false,
  if◌then◌else◌,
}
use fluid_solana_programs.Base.Int.{ℤ, pos, ltb_ℤ}
use fluid_solana_programs.Base.Result.{
  Result, ok, >>=-eq-ok, passed, ok-pair, ok-triple, run_if, run_else, ◌>>=◌, ◌>>◌, fail_if,
}
use fluid_solana_programs.Math.Words.{u128_max, i128_max}
use fluid_solana_programs.Math.Casting.{
  cast, cast_to_signed, cast_to_unsigned, cast_to_signed-eq-ok, cast_to_unsigned-eq-ok,
}
use fluid_solana_programs.Math.SafeMath.{
  safe_mul, safe_div, safe_sub, safe_mul-eq-ok, safe_div-eq-ok, safe_div_ceil, safe_div_ceil-eq-ok,
}
use fluid_solana_programs.Math.Signed
use fluid_solana_programs.Liquidity.Constants.{Pubkey, exchange_prices_precision}
use fluid_solana_programs.Vaults.Constants.{max_token_decimals, rate_output, billion}
use fluid_solana_programs.Vaults.Common.{
  get_scale, get_minimum_debt, unscale_amounts, unscale_amounts_up,
}
use fluid_solana_programs.Vaults.TickHasDebt.{TickHasDebtAccounts}
use fluid_solana_programs.Vaults.Tick.{TickAccounts}
use fluid_solana_programs.Vaults.Branch.{BranchAccounts}
use fluid_solana_programs.Vaults.CurrentLiquidity.{
  CurrentLiquidity, limit_amounts, get_actual_amounts, get_normal_debt_liq, get_normal_col_liq,
}
use fluid_solana_programs.Vaults.CurrentLiquidity.Amounts.{positive_amounts}
use fluid_solana_programs.Vaults.VaultState.{
  VaultState, update_state_at_liq_end, reduce_total_supply, reduce_total_borrow,
}
use fluid_solana_programs.Vaults.VaultState.Dust.{absorb_dust_amount_for_liquidate}
use fluid_solana_programs.Vaults.Liquidation.Loop.{Liquidating, done, take_debt, liquidate_round}
use fluid_solana_programs.Vaults.Liquidation.Invariant.{Rounds, liquidation-balanced}
use fluid_solana_programs.Vaults.Liquidation.Entry.{
  starting, begin_liquidate, enters_loop, start_rounds, unscaled, settle,
}
use fluid_solana_programs.Vaults.Liquidation.Paid.Amounts.{
  IsReduced, IsFair, Covers, fair, actual-uncut, unscaled-Covers, slippage-le, totals-IsReduced,
}

-- From the debt that is to be liquidated to the end of the loop, where it is entered at all; after the
-- last round the vault is at the tick and branch where the liquidation ended.
pub data Run (to : Pubkey) (col_per_debt decimals : ℕ) (liquidation_tick : ℤ) (ticks : TickAccounts)
    (bitmap : TickHasDebtAccounts) (branches : BranchAccounts) (d : CurrentLiquidity)
    (v : VaultState) : CurrentLiquidity → VaultState → Type 0 where
  skipped :
      enters_loop liquidation_tick d ≡ false
      → Run to col_per_debt decimals liquidation_tick ticks bitmap branches d v d v
  looped :
      {s t u : Liquidating} {n : ℕ} (debt : ℕ) (left : TickAccounts)
      → enters_loop liquidation_tick d ≡ true
      → start_rounds to liquidation_tick ticks bitmap branches d v ≡ ok s
      → Rounds col_per_debt decimals liquidation_tick s n t
      → take_debt t ≡ ok (debt, left)
      → liquidate_round col_per_debt decimals liquidation_tick t ≡ ok (done u)
      → Run to col_per_debt decimals liquidation_tick ticks bitmap branches d v u.current_data
          (update_state_at_liq_end u.tick_info.tick u.branch.id v)

start_rounds-same :
    (to : Pubkey) (liquidation_tick : ℤ) (ticks : TickAccounts) (bitmap : TickHasDebtAccounts)
    (branches : BranchAccounts) (d : CurrentLiquidity) (v : VaultState) {s : Liquidating}
    → start_rounds to liquidation_tick ticks bitmap branches d v ≡ ok s
    → (s.current_data.total_debt_liq ≡ d.total_debt_liq)
      × (s.current_data.debt_remaining ≡ d.debt_remaining)
unfolding start_rounds
start_rounds-same to liquidation_tick ticks bitmap branches d v run = ground arith

module _ (borrow_ex_price supply_ex_price borrow_decimals supply_decimals : ℕ) (debt_amt : ℤ)
    (col_per_unit_debt : ℕ) where
  -- The debt that was asked for covers what has been liquidated and what remains to be.
  abbrev IsAsked : CurrentLiquidity → Type 0
  IsAsked d =
      (amount : ℕ) × (debt_amt ≡ pos amount)
      × ((d.total_debt_liq + d.debt_remaining) * borrow_ex_price
          ≤ amount * exchange_prices_precision)

  settle-IsFair :
      (d : CurrentLiquidity) (v : VaultState) (amount : ℕ) {paid received : ℕ} {w : VaultState}
      → debt_amt ≡ pos amount
      → d.total_debt_liq * borrow_ex_price ≤ amount * exchange_prices_precision
      → settle borrow_ex_price supply_ex_price borrow_decimals supply_decimals debt_amt
          col_per_unit_debt d v
        ≡ ok (paid, received, w)
      → IsReduced d.total_debt_liq d.total_col_liq v w
        × IsFair borrow_ex_price supply_ex_price borrow_decimals supply_decimals col_per_unit_debt d
            paid received
  unfolding settle
  settle-IsFair d v amount is_amount below run =
      let (asked, run_asked, run₁) = >>=-eq-ok (cast_to_unsigned u128_max debt_amt) _ run in
      let ((debt, col), run_actual, run₂) =
        >>=-eq-ok (get_actual_amounts borrow_ex_price supply_ex_price asked d) _ run₁ in
      let ((paid₀, received₀), run_unscaled, run₃) =
        >>=-eq-ok (unscaled borrow_decimals supply_decimals debt col) _ run₂ in
      let (scaled, run_mul, run₄) = >>=-eq-ok (safe_mul u128_max received₀ rate_output) _ run₃ in
      let (per_unit, run_div, run₅) = >>=-eq-ok (safe_div scaled paid₀) _ run₄ in
      let (within, run₆) = passed (ltb per_unit col_per_unit_debt) _ run₅ in
      let (less_supply, run_supply, run₇) =
        >>=-eq-ok (reduce_total_supply d.total_col_liq v) _ run₆ in
      let (less_borrow, run_borrow, last) =
        >>=-eq-ok (reduce_total_borrow d.total_debt_liq less_supply) _ run₇ in
      let (same_paid, same_received, same_state) = ok-triple last in
      let same_amount : asked ≡ amount =
        let (is_asked, _) = cast_to_unsigned-eq-ok u128_max debt_amt run_asked in cc in
      let is_fair =
        fair borrow_ex_price supply_ex_price borrow_decimals supply_decimals col_per_unit_debt d
          debt col paid₀ received₀
          (actual-uncut borrow_ex_price supply_ex_price asked d (rw same_amount below) run_actual)
          (unscaled-Covers borrow_decimals supply_decimals debt col run_unscaled)
          (slippage-le paid₀ received₀ col_per_unit_debt run_mul run_div within) in
      (
        rw (← same_state)
            (totals-IsReduced d.total_debt_liq d.total_col_liq v run_supply run_borrow),
        rw (← same_paid, ← same_received) is_fair,
      )

  abbrev SameTotals : VaultState → VaultState → Type 0
  SameTotals v w = (w.total_borrow ≡ v.total_borrow) × (w.total_supply ≡ v.total_supply)

  remaining-IsAsked :
      (amount : ℕ) (d : CurrentLiquidity) {scaled remaining : ℕ}
      → debt_amt ≡ pos amount
      → safe_mul u128_max amount exchange_prices_precision ≡ ok scaled
      → safe_div scaled borrow_ex_price ≡ ok remaining
      → d.total_debt_liq + d.debt_remaining ≡ remaining
      → IsAsked d
  remaining-IsAsked amount d {scaled} {remaining} is_amount run_mul run_div same =
      let (is_scaled, _) = safe_mul-eq-ok u128_max amount exchange_prices_precision run_mul in
      let (is_remaining, _) = safe_div-eq-ok scaled borrow_ex_price run_div in
      let low : scaled / borrow_ex_price * borrow_ex_price ≤ scaled =
        div-mul-le_self scaled borrow_ex_price in
      let bound : remaining * borrow_ex_price ≤ scaled = rw is_remaining low in
      (amount, is_amount, rw same (omega (arith, bound, is_scaled)))

  -- Debt that was absorbed earlier is taken from what remains, if it is taken.
  first_amounts :
      (absorb : Bool) (remaining : ℕ) (v : VaultState) {d : CurrentLiquidity} {w : VaultState}
      → (if absorb
          then absorb_dust_amount_for_liquidate (starting remaining v) v
          else ok (starting remaining v, v))
        ≡ ok (d, w)
      → (d.total_debt_liq + d.debt_remaining ≡ remaining) × SameTotals v w
  unfolding absorb_dust_amount_for_liquidate safe_sub safe_mul safe_div
  first_amounts true remaining v run = ground arith
  first_amounts false remaining v run = ground arith

  begin_liquidate-IsAsked :
      (absorb : Bool) (v : VaultState) {d : CurrentLiquidity} {w : VaultState}
      → begin_liquidate borrow_decimals borrow_ex_price absorb debt_amt v ≡ ok (d, w)
      → IsAsked d × SameTotals v w
  unfolding begin_liquidate
  begin_liquidate-IsAsked absorb v {d} run =
      let (minimum, _, run₁) = >>=-eq-ok (get_minimum_debt borrow_decimals) _ run in
      let (signed, _, run₂) = >>=-eq-ok (cast_to_signed i128_max minimum) _ run₁ in
      let (_, run₃) = passed (ltb_ℤ debt_amt signed) _ run₂ in
      let (amount, run_amount, run₄) = >>=-eq-ok (cast_to_unsigned u128_max debt_amt) _ run₃ in
      let (scaled, run_mul, run₅) =
        >>=-eq-ok (safe_mul u128_max amount exchange_prices_precision) _ run₄ in
      let (remaining, run_div, run₆) = >>=-eq-ok (safe_div scaled borrow_ex_price) _ run₅ in
      let (least, _, run₇) = >>=-eq-ok (safe_div v.total_borrow billion) _ run₆ in
      let (_, last) = passed (ltb remaining least) _ run₇ in
      let (sum, same) = first_amounts absorb remaining v last in
      let (is_amount, _) = cast_to_unsigned-eq-ok u128_max debt_amt run_amount in
      (remaining-IsAsked amount d is_amount run_mul run_div sum, same)

  Run-le :
      (to : Pubkey) (col_per_debt : ℕ) (liquidation_tick : ℤ) (ticks : TickAccounts)
      (bitmap : TickHasDebtAccounts) (branches : BranchAccounts) (d : CurrentLiquidity)
      (v : VaultState) {e : CurrentLiquidity} {w : VaultState}
      → Run to col_per_debt borrow_decimals liquidation_tick ticks bitmap branches d v e w
      → (e.total_debt_liq ≤ d.total_debt_liq + d.debt_remaining) × SameTotals v w
  unfolding update_state_at_liq_end
  Run-le to col_per_debt liquidation_tick ticks bitmap branches d v (skipped closed) =
      (omega arith, (refl, refl))
  Run-le to col_per_debt liquidation_tick ticks bitmap branches d v
        (looped debt left enters start rounds taken last) =
      let (_, at_most) =
        liquidation-balanced col_per_debt borrow_decimals liquidation_tick debt left rounds taken
          last in
      let (same_total, same_remaining) =
        start_rounds-same to liquidation_tick ticks bitmap branches d v start in
      (omega arith, (refl, refl))

  -- In a liquidation that succeeds, from its amounts to the end, with debt absorbed earlier or without:
  -- the vault's total debt and collateral fall by exactly what has been liquidated; the liquidator pays
  -- at least the liquidated debt at its exchange price, and receives at most the liquidated collateral
  -- at its exchange price,
  -- and at least the collateral per debt that was asked for.
  pub liquidation-IsFair :
      (to : Pubkey) (absorb : Bool) (col_per_debt : ℕ) (liquidation_tick : ℤ) (ticks : TickAccounts)
      (bitmap : TickHasDebtAccounts) (branches : BranchAccounts) (v : VaultState)
      {d e : CurrentLiquidity} {w x y : VaultState} {paid received : ℕ}
      → begin_liquidate borrow_decimals borrow_ex_price absorb debt_amt v ≡ ok (d, w)
      → Run to col_per_debt borrow_decimals liquidation_tick ticks bitmap branches d w e x
      → settle borrow_ex_price supply_ex_price borrow_decimals supply_decimals debt_amt
          col_per_unit_debt e x
        ≡ ok (paid, received, y)
      → IsReduced e.total_debt_liq e.total_col_liq v y
        × IsFair borrow_ex_price supply_ex_price borrow_decimals supply_decimals col_per_unit_debt e
            paid received
  liquidation-IsFair to absorb col_per_debt liquidation_tick ticks bitmap branches v {d} {e} {w} {x}
        start loops end =
      let ((amount, is_amount, enough), (borrow_w, supply_w)) =
        begin_liquidate-IsAsked absorb v start in
      let (at_most, (borrow_x, supply_x)) =
        Run-le to col_per_debt liquidation_tick ticks bitmap branches d w loops in
      let grown : e.total_debt_liq * borrow_ex_price
          ≤ (d.total_debt_liq + d.debt_remaining) * borrow_ex_price =
        mul-le-mul {m₂ = borrow_ex_price} at_most (omega arith) in
      let ((less_borrow, less_supply), is_fair) =
        settle-IsFair e x amount is_amount (omega arith) end in
      ((omega arith, omega arith), is_fair)
