-- ===== src/Vaults/Liquidation/Invariant.antt =====
-- The rounds of a liquidation (`liquidate` of `programs/vaults/src/module/user.rs`) as a transition
-- system, and what all its runs preserve.
use fluid_solana_programs.Base.{ℕ, ◌+◌, ◌≤◌, ◌≡◌, arith, leb, ◌||◌, Bool-cases, inl, inr}
use fluid_solana_programs.Base.Int.{ℤ}
use fluid_solana_programs.Base.Result.{ok, >>=-eq-ok, run_if, run_else}
use fluid_solana_programs.Vaults.Tick.{TickAccounts}
use fluid_solana_programs.Vaults.CurrentLiquidity.{is_ref_tick_liquidation_threshold}
use fluid_solana_programs.Vaults.Liquidation.Loop.{
  Liquidating, Round, again, done, take_debt, add_debt, find_ref, step_amounts, finish, go_on,
  liquidate_to_ref, liquidate_round,
}
use fluid_solana_programs.Vaults.Liquidation.Steps.{
  Added, Moved, Finished, add_debt-Added, find_ref-Added, go_on-Moved, again_same, done_same,
  finish-bounds,
}

-- The runs of rounds that go on, with the debt that they take from ticks and branches.
pub data Rounds (col_per_debt decimals : ℕ) (liquidation_tick : ℤ) (s : Liquidating)
    : ℕ → Liquidating → Type 0 where
  here : Rounds col_per_debt decimals liquidation_tick s 0 s
  next :
      {n : ℕ} {t u : Liquidating} (debt : ℕ) (ticks : TickAccounts)
      → Rounds col_per_debt decimals liquidation_tick s n t
      → take_debt t ≡ ok (debt, ticks)
      → liquidate_round col_per_debt decimals liquidation_tick t ≡ ok (again u)
      → Rounds col_per_debt decimals liquidation_tick s (n + debt) u

module _ (col_per_debt decimals : ℕ) (liquidation_tick : ℤ) where
  to_ref-again :
      (s : Liquidating) {t : Liquidating}
      → liquidate_to_ref col_per_debt decimals s ≡ ok (again t)
      → Moved s.current_data t.current_data
  unfolding liquidate_to_ref
  to_ref-again s run =
      let ((debt, col), _, run₁) = >>=-eq-ok (step_amounts col_per_debt s.current_data) _ run in
      elim (Bool-cases (
        leb s.current_data.debt_remaining debt
        || is_ref_tick_liquidation_threshold s.current_data)) [
          | inl stop ↦
              let run₂ =
                run_if
                  (leb s.current_data.debt_remaining debt
                    || is_ref_tick_liquidation_threshold s.current_data)
                  _ _ stop run₁ in
              let (t, _, last) = >>=-eq-ok (finish col_per_debt decimals debt col s) _ run₂ in cc
          | inr more ↦
              let run₂ =
                run_else
                  (leb s.current_data.debt_remaining debt
                    || is_ref_tick_liquidation_threshold s.current_data)
                  _ _ more run₁ in
              let (t, run_on, last) = >>=-eq-ok (go_on debt col s) _ run₂ in
              again_same s t (go_on-Moved debt col s run_on) last
        ]

  to_ref-done :
      (s : Liquidating) {t : Liquidating}
      → liquidate_to_ref col_per_debt decimals s ≡ ok (done t)
      → Finished s.current_data t.current_data
  unfolding liquidate_to_ref
  to_ref-done s run =
      let ((debt, col), _, run₁) = >>=-eq-ok (step_amounts col_per_debt s.current_data) _ run in
      elim (Bool-cases (
        leb s.current_data.debt_remaining debt
        || is_ref_tick_liquidation_threshold s.current_data)) [
          | inr more ↦
              let run₂ =
                run_else
                  (leb s.current_data.debt_remaining debt
                    || is_ref_tick_liquidation_threshold s.current_data)
                  _ _ more run₁ in
              let (t, _, last) = >>=-eq-ok (go_on debt col s) _ run₂ in cc
          | inl stop ↦
              let run₂ =
                run_if
                  (leb s.current_data.debt_remaining debt
                    || is_ref_tick_liquidation_threshold s.current_data)
                  _ _ stop run₁ in
              let (t, run_end, last) = >>=-eq-ok (finish col_per_debt decimals debt col s) _ run₂ in
              done_same s t (finish-bounds col_per_debt decimals debt col s run_end) last
        ]

  at_ref :
      (s : Liquidating) {r : Round} (n : ℕ) (ticks : TickAccounts)
      → take_debt s ≡ ok (n, ticks)
      → liquidate_round col_per_debt decimals liquidation_tick s ≡ ok r
      → (t : Liquidating) × (liquidate_to_ref col_per_debt decimals t ≡ ok r)
        × Added n s.current_data t.current_data
  unfolding liquidate_round
  at_ref s n ticks taken run =
      let (added, run_add, run₁) = >>=-eq-ok (add_debt s) _ run in
      let (t, run_find, last) = >>=-eq-ok (find_ref liquidation_tick added) _ run₁ in
      let first = add_debt-Added s n ticks taken run_add in
      let second = find_ref-Added liquidation_tick added run_find in
      (t, last, (omega arith, omega arith, omega arith))

  -- The debt that the rounds have taken is liquidated or can be; what has been liquidated and what
  -- remains to be add up to what did at the start.
  Rounds-balanced :
      {s t : Liquidating} {n : ℕ}
      → Rounds col_per_debt decimals liquidation_tick s n t
      → (t.current_data.total_debt_liq + t.current_data.debt
          ≡ s.current_data.total_debt_liq + s.current_data.debt + n)
        × (t.current_data.total_debt_liq + t.current_data.debt_remaining
            ≡ s.current_data.total_debt_liq + s.current_data.debt_remaining)
  Rounds-balanced here = (omega arith, omega arith)
  Rounds-balanced (next {n = n} {t = t} {u = u} debt ticks before taken run) =
      let ih = Rounds-balanced before in
      let (ref, to_ref, added) = at_ref t debt ticks taken run in
      let m = to_ref-again ref to_ref in (omega arith, omega arith)

  -- In every run of the loop of a liquidation that ends: the debt that has been liquidated and the debt
  -- that is left in the last branch are together the debt that the loop began with and the debts that
  -- its rounds took from ticks and branches; and no more debt has been liquidated than had been before
  -- and remained to be liquidated at the start.
  pub liquidation-balanced :
      {s t u : Liquidating} {n : ℕ} (debt : ℕ) (ticks : TickAccounts)
      → Rounds col_per_debt decimals liquidation_tick s n t
      → take_debt t ≡ ok (debt, ticks)
      → liquidate_round col_per_debt decimals liquidation_tick t ≡ ok (done u)
      → (u.current_data.total_debt_liq + u.current_data.debt
          ≡ s.current_data.total_debt_liq + s.current_data.debt + n + debt)
        × (u.current_data.total_debt_liq
            ≤ s.current_data.total_debt_liq + s.current_data.debt_remaining)
  liquidation-balanced {t = t} debt ticks before taken run =
      let rounds = Rounds-balanced before in
      let (ref, to_ref, added) = at_ref t debt ticks taken run in
      let end = to_ref-done ref to_ref in (omega arith, omega arith)
