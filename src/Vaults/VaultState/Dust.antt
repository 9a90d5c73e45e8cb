-- ===== src/Vaults/VaultState/Dust.antt =====
-- `absorb_dust_amount_for_liquidate` of `programs/vaults/src/state/vault_state.rs`, on the amounts of
-- `CurrentLiquidity` (`programs/vaults/src/state/structs.rs`) that it changes: a liquidation takes what
-- was absorbed earlier first.
use fluid_solana_programs.Base.{◌+◌, ◌*◌, ◌≡◌, arith, ltb, if◌then◌else◌}
use fluid_solana_programs.Base.Result.{Result, ok, ◌>>=◌}
use fluid_solana_programs.Math.Words.{u128_max}
use fluid_solana_programs.Math.SafeMath.{safe_sub, safe_mul, safe_div}
use fluid_solana_programs.Vaults.CurrentLiquidity.{CurrentLiquidity}
use fluid_solana_programs.Vaults.VaultState.{VaultState, reset_absorbed_amounts}

unfoldable pub absorb_dust_amount_for_liquidate :
    CurrentLiquidity → VaultState → Result (CurrentLiquidity × VaultState)
absorb_dust_amount_for_liquidate d v =
    if ltb d.debt_remaining v.absorbed_debt_amount
    then (do
      scaled ← safe_mul u128_max v.absorbed_col_amount d.debt_remaining
      col ← safe_div scaled v.absorbed_debt_amount
      col_left ← safe_sub v.absorbed_col_amount col
      debt_left ← safe_sub v.absorbed_debt_amount d.debt_remaining
      ok (
        record d { debt_remaining = 0; total_debt_liq = d.debt_remaining; total_col_liq = col },
        record v { absorbed_col_amount = col_left; absorbed_debt_amount = debt_left },
      ))
    else (do
      left ← safe_sub d.debt_remaining v.absorbed_debt_amount
      ok (
        record d {
          debt_remaining = left;
          total_debt_liq = v.absorbed_debt_amount;
          total_col_liq = v.absorbed_col_amount;
        },
        reset_absorbed_amounts v,
      ))

-- If `absorb_dust_amount_for_liquidate` returns: no debt and no collateral is created or lost. The debt
-- taken is what the absorbed debt lost and what the remaining debt of the liquidation lost, and the
-- collateral taken is what the absorbed collateral lost; nothing is left to liquidate or nothing is
-- left absorbed.
pub absorb_dust_amount_for_liquidate-balanced :
    (d : CurrentLiquidity) (v : VaultState) {e : CurrentLiquidity} {w : VaultState}
    → absorb_dust_amount_for_liquidate d v ≡ ok (e, w)
    → (e.total_debt_liq + w.absorbed_debt_amount ≡ v.absorbed_debt_amount)
      × (e.total_debt_liq + e.debt_remaining ≡ d.debt_remaining)
      × (e.total_col_liq + w.absorbed_col_amount ≡ v.absorbed_col_amount)
      × (e.debt_remaining * w.absorbed_debt_amount ≡ 0)
unfolding absorb_dust_amount_for_liquidate safe_mul safe_div safe_sub
absorb_dust_amount_for_liquidate-balanced d v run = ground arith
