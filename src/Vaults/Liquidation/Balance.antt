-- ===== src/Vaults/Liquidation/Balance.antt =====
-- The end of a liquidation (`programs/vaults/src/utils/liquidate.rs`) moves debt and collateral from what
-- can be liquidated to what has been, and creates none.
use fluid_solana_programs.Base.{ℕ, ◌+◌, ◌≤◌, ◌<◌, ◌≡◌, arith, leb, ltb, Bool-cases, inl, inr}
use fluid_solana_programs.Base.Int.{pos}
use fluid_solana_programs.Base.Errors.{vault, vault_branch_debt_too_low}
use fluid_solana_programs.Base.Result.{
  ok, ◌>>◌, fail_if, passed, >>=-eq-ok, ok-triple, run_if, run_else,
}
use fluid_solana_programs.Math.Words.{i32_max}
use fluid_solana_programs.Math.Signed
use fluid_solana_programs.Math.U256.MulDiv.{safe_multiply_divide}
use fluid_solana_programs.Vaults.Constants.{x30, rate_output}
use fluid_solana_programs.Vaults.CurrentLiquidity.{
  CurrentLiquidity, TickMemoryVars, get_debt_factor, get_final_ratio, update_totals, set_partials,
  set_tick,
}
use fluid_solana_programs.Vaults.CurrentLiquidity.Amounts.{
  set_partials-range, update_totals-balanced,
}
use fluid_solana_programs.Vaults.Liquidation.{
  BranchMemoryVars, final_tick, last_amounts, end_liquidate, update_branch_debt_factor,
}

abbrev pub IsPartial : ℕ → Type 0
IsPartial partials = (1 ≤ partials) × (partials < x30)

final_tick-IsPartial :
    (d : CurrentLiquidity) (final_ratio : ℕ) (t : TickMemoryVars) {u : TickMemoryVars}
    → final_tick d final_ratio t ≡ ok u
    → IsPartial u.partials
unfolding final_tick set_partials
final_tick-IsPartial d final_ratio t run = ground arith

taken :
    (remaining most debt : ℕ) {debt' : ℕ} {t u : TickMemoryVars}
    → debt ≤ remaining
    → debt ≤ most
    → IsPartial t.partials
    → debt ≡ debt'
    → t ≡ u
    → (debt' ≤ remaining) × (debt' ≤ most) × IsPartial u.partials
taken remaining most debt low high partial same same_tick =
    rw (← same, ← same_tick) (low, high, partial)

-- What is liquidated in the last step: all that remains, where the step would take as much or more.
last_amounts-debt :
    (col_per_debt : ℕ) (d : CurrentLiquidity) (t : TickMemoryVars) (debt col : ℕ) {debt' col' : ℕ}
    {u : TickMemoryVars}
    → last_amounts col_per_debt d t debt col ≡ ok (debt', col', u)
    → (debt' ≤ d.debt_remaining) × (debt' ≤ debt) × IsPartial u.partials
unfolding last_amounts
last_amounts-debt col_per_debt d t debt col run = elim (Bool-cases (leb d.debt_remaining debt)) [
  | inl whole ↦
      let run' = run_if (leb d.debt_remaining debt) _ _ whole run in
      let (c, _, run₁) =
        >>=-eq-ok (safe_multiply_divide d.debt_remaining col_per_debt rate_output) _ run' in
      let (final_ratio, _, run₂) = >>=-eq-ok (get_final_ratio c d.debt_remaining d) _ run₁ in
      let (ended, at_end, last) = >>=-eq-ok (final_tick d final_ratio t) _ run₂ in
      let partial = final_tick-IsPartial d final_ratio t at_end in
      let (same, _, same_tick) = ok-triple last in
      taken d.debt_remaining debt d.debt_remaining (omega arith) (ground (arith, whole)) partial
        same same_tick
  | inr part ↦
      let run' = run_else (leb d.debt_remaining debt) _ _ part run in
      let (tick, _, last) = >>=-eq-ok (Signed.safe_add i32_max d.ref_tick (pos 1)) _ run' in
      let (same, _, same_tick) = ok-triple last in
      taken d.debt_remaining debt debt (ground (arith, part)) (omega arith)
        (set_partials-range 1 (set_tick tick t)) same same_tick
]

abbrev pub Ended : ℕ → ℕ → CurrentLiquidity → CurrentLiquidity → TickMemoryVars → Type 0
Ended minimum debt d e u =
    (e.total_debt_liq ≤ d.total_debt_liq + d.debt_remaining)
    × (e.total_debt_liq ≤ d.total_debt_liq + debt)
    × (e.total_debt_liq + e.debt ≡ d.total_debt_liq + d.debt)
    × (e.total_col_liq + e.col ≡ d.total_col_liq + d.col)
    × (minimum ≤ e.debt)
    × IsPartial u.partials

-- What `end_liquidate` returns, once the parts of its run are known.
Ended-balanced :
    (minimum debt debt' col' : ℕ) (d updated : CurrentLiquidity) (ended : TickMemoryVars)
    (reduced : BranchMemoryVars) {e : CurrentLiquidity} {u : TickMemoryVars} {w : BranchMemoryVars}
    → (debt' ≤ d.debt_remaining) × (debt' ≤ debt) × IsPartial ended.partials
    → update_totals debt' col' d ≡ ok updated
    → ◌>>◌ {T = CurrentLiquidity × TickMemoryVars × BranchMemoryVars}
        (fail_if (ltb updated.debt minimum) (vault vault_branch_debt_too_low))
        (ok (updated, ended, reduced))
      ≡ ok (e, u, w)
    → Ended minimum debt d e u
Ended-balanced minimum debt debt' col' d updated ended reduced limits totals last =
    let balance = update_totals-balanced debt' col' d totals in
    let (enough, same) = passed (ltb updated.debt minimum) (vault vault_branch_debt_too_low) last in
    let (same_liquidity, same_tick, _) = ok-triple same in
    rw (← same_liquidity, ← same_tick)
      (omega arith, omega arith, omega arith, omega arith, ground (arith, enough), limits.2)

-- If the end of a liquidation returns: what is liquidated in the last step is at most what remains to
-- be liquidated and at most what the step would take; debt and collateral move from what can be
-- liquidated to what has been, and none is created; the debt that is left in the branch is at least the
-- minimum; and the tick where the liquidation ends is a partial one.
pub end_liquidate-balanced :
    (col_per_debt minimum debt col : ℕ) (d : CurrentLiquidity) (t : TickMemoryVars)
    (v : BranchMemoryVars) {e : CurrentLiquidity} {u : TickMemoryVars} {w : BranchMemoryVars}
    → end_liquidate col_per_debt minimum debt col d t v ≡ ok (e, u, w)
    → Ended minimum debt d e u
unfolding end_liquidate
end_liquidate-balanced col_per_debt minimum debt col d t v run =
    let ((debt', col', ended), at_end, run₁) =
      >>=-eq-ok (last_amounts col_per_debt d t debt col) _ run in
    let (factor, _, run₂) = >>=-eq-ok (get_debt_factor debt' d) _ run₁ in
    let (updated, totals, run₃) = >>=-eq-ok (update_totals debt' col' d) _ run₂ in
    let (reduced, _, last) = >>=-eq-ok (update_branch_debt_factor factor v) _ run₃ in
    let limits = last_amounts-debt col_per_debt d t debt col at_end in
    Ended-balanced minimum debt debt' col' d updated ended reduced limits totals last
