-- ===== src/Vaults/Liquidation/Loop.antt =====
-- The main loop of `liquidate` (`programs/vaults/src/module/user.rs`): one round takes the debt of a tick
-- or of a branch, finds the next tick to stop at, and liquidates down to it.
use fluid_solana_programs.Base.{ℕ, leb, ◌==◌, if◌then◌else◌, Bool, false, ◌&&◌, ◌||◌}
use fluid_solana_programs.Base.Int.{ℤ, eqb_ℤ}
use fluid_solana_programs.Base.Result.{Result, ok, ◌>>=◌}
use fluid_solana_programs.Math.Words.{u128_max}
use fluid_solana_programs.Math.SafeMath.{safe_add, safe_sub, safe_mul, safe_div}
use fluid_solana_programs.Math.Bn.{div_big_number}
use fluid_solana_programs.Math.Tick.{get_ratio_at_tick, zero_tick_scaled_ratio}
use fluid_solana_programs.Vaults.Constants.{x30, rate_output}
use fluid_solana_programs.Vaults.Common.{get_minimum_branch_debt}
use fluid_solana_programs.Vaults.TickHasDebt.{TickHasDebtAccounts, fetch_next_tick_liquidate}
use fluid_solana_programs.Vaults.Tick
use fluid_solana_programs.Vaults.Tick.{
  TickAccounts, get_next_ref_tick, get_raw_debt, set_liquidated,
}
use fluid_solana_programs.Vaults.Branch
use fluid_solana_programs.Vaults.Branch.{
  BranchAccounts, get_current_partials_ratio, merge_with_base_branch, update_state_at_liq_end,
}
use fluid_solana_programs.Vaults.CurrentLiquidity.{
  CurrentLiquidity, TickMemoryVars, is_perfect_tick, is_ref_tick_liquidated,
  is_ref_tick_liquidation_threshold, get_debt_liquidated, get_debt_factor, reduce_debt_remaining,
  update_totals, update_next_iterations_with_ref,
}
use fluid_solana_programs.Vaults.Liquidation.{
  BranchMemoryVars, set_base_branch_data, update_branch_debt_factor, update_branch_to_base_branch,
  end_liquidate,
}

-- What the loop changes: its local variables and the accounts.
pub record Liquidating : Type 0 where
  pub current_data : CurrentLiquidity
  pub tick_info : TickMemoryVars
  pub branch : BranchMemoryVars
  pub next_tick : ℤ
  pub is_first_iteration : Bool
  pub tick_accounts : TickAccounts
  pub tick_has_debt_accounts : TickHasDebtAccounts
  pub branch_accounts : BranchAccounts

-- How a round ends: with a `break`, or with another round.
pub data Round : Type 0 where
  again : Liquidating → Round
  done : Liquidating → Round

-- `additional_debt`, with the tick that the debt is taken from.
unfoldable pub take_debt : Liquidating → Result (ℕ × TickAccounts)
unfolding set_liquidated
take_debt s =
    if is_perfect_tick s.current_data
    then (do
      tick_data ← Tick.load s.tick_accounts s.current_data.tick
      let debt = get_raw_debt tick_data
      ok (
        debt,
        Tick.store s.current_data.tick (set_liquidated s.branch.id s.branch.debt_factor tick_data)
            s.tick_accounts,
      ))
    else ok (s.branch.branch_data.debt_liquidity, s.tick_accounts)

unfoldable pub add_debt : Liquidating → Result Liquidating
add_debt s = do
  (additional_debt, ticks) ← take_debt s
  debt ← safe_add u128_max s.current_data.debt additional_debt
  scaled ← safe_mul u128_max additional_debt zero_tick_scaled_ratio
  additional_col ← safe_div scaled s.current_data.ratio
  col ← safe_add u128_max s.current_data.col additional_col
  ok (record s {
    current_data = record s.current_data { debt = debt; col = col };
    tick_accounts = ticks;
  })

unfoldable pub find_next_tick : ℤ → Liquidating → Result Liquidating
find_next_tick liquidation_tick s =
    if (eqb_ℤ s.next_tick s.current_data.tick && is_perfect_tick s.current_data)
      || s.is_first_iteration
    then (do
      (next_tick, bitmap) ←
          fetch_next_tick_liquidate s.current_data.tick liquidation_tick
            (is_perfect_tick s.current_data) s.tick_has_debt_accounts
      ok (record s {
        next_tick = next_tick;
        is_first_iteration = false;
        tick_has_debt_accounts = bitmap;
      }))
    else ok s

-- The ratio at the reference tick; `d` has its tick and status.
unfoldable pub load_ref : CurrentLiquidity → Liquidating → Result Liquidating
load_ref d s =
    if is_ref_tick_liquidated d
    then (do
      base_branch ← Branch.load s.branch_accounts s.branch.branch_data.connected_branch_id
      ratio ← get_ratio_at_tick d.ref_tick
      (ref_ratio, partials) ← get_current_partials_ratio base_branch.minima_tick_partials ratio
      ok (record s {
        current_data = record d { ref_ratio = ref_ratio };
        tick_info = record s.tick_info { partials = partials };
        branch = set_base_branch_data base_branch s.branch;
      }))
    else (do
      ref_ratio ← get_ratio_at_tick d.ref_tick
      ok (record s {
        current_data = record d { ref_ratio = ref_ratio };
        tick_info = record s.tick_info { partials = x30 };
      }))

unfoldable pub find_ref : ℤ → Liquidating → Result Liquidating
unfolding get_next_ref_tick
find_ref liquidation_tick s = do
  found ← find_next_tick liquidation_tick s
  let (ref_tick, ref_tick_status) : ℤ × ℕ =
      get_next_ref_tick found.branch.minima_tick found.next_tick liquidation_tick
  load_ref (record found.current_data { ref_tick = ref_tick; ref_tick_status = ref_tick_status })
      found

-- The debt and collateral to liquidate down to the reference tick.
unfoldable pub step_amounts : ℕ → CurrentLiquidity → Result (ℕ × ℕ)
step_amounts col_per_debt d = do
  debt_liquidated ← get_debt_liquidated col_per_debt d
  scaled ← safe_mul u128_max debt_liquidated col_per_debt
  col_liquidated ← safe_div scaled rate_output
  adjusted ← if d.debt == debt_liquidated then safe_sub debt_liquidated 1 else ok debt_liquidated
  ok (adjusted, col_liquidated)

-- The last round: the branch is written.
unfoldable pub finish : ℕ → ℕ → ℕ → ℕ → Liquidating → Result Liquidating
finish col_per_debt decimals debt_liquidated col_liquidated s = do
  minimum ← get_minimum_branch_debt decimals
  (d, t, v) ←
      end_liquidate col_per_debt minimum debt_liquidated col_liquidated s.current_data s.tick_info
        s.branch
  b ← Branch.load s.branch_accounts v.id
  updated ← update_state_at_liq_end t.tick t.partials d.debt v.debt_factor b
  ok (record s {
    current_data = d;
    tick_info = t;
    branch = v;
    branch_accounts = Branch.store v.id updated s.branch_accounts;
  })

-- The current branch is merged into its base branch, which becomes the current one.
unfoldable pub merge_branch : Liquidating → Result Liquidating
unfolding update_branch_to_base_branch merge_with_base_branch
merge_branch s = do
  let new_branch_debt_factor = s.branch.base_branch_data.debt_factor
  current_branch ← Branch.load s.branch_accounts s.branch.id
  connection_factor ← div_big_number new_branch_debt_factor s.branch.debt_factor
  ok (record s {
    branch =
        update_branch_to_base_branch (record s.branch { debt_factor = new_branch_debt_factor });
    branch_accounts =
        Branch.store s.branch.id (merge_with_base_branch connection_factor current_branch)
          s.branch_accounts;
  })

-- A round that is not the last.
unfoldable pub go_on : ℕ → ℕ → Liquidating → Result Liquidating
unfolding update_next_iterations_with_ref
go_on debt_liquidated col_liquidated s = do
  debt_factor ← get_debt_factor debt_liquidated s.current_data
  reduced ← reduce_debt_remaining debt_liquidated s.current_data
  d ← update_totals debt_liquidated col_liquidated reduced
  v ← update_branch_debt_factor debt_factor s.branch
  let updated = record s { current_data = d; branch = v }
  merged ← if is_ref_tick_liquidated d then merge_branch updated else ok updated
  ok (record merged { current_data = update_next_iterations_with_ref merged.current_data })

-- The end of the round, once the reference tick is found.
unfoldable pub liquidate_to_ref : ℕ → ℕ → Liquidating → Result Round
liquidate_to_ref col_per_debt decimals s = do
  (debt_liquidated, col_liquidated) ← step_amounts col_per_debt s.current_data
  if leb s.current_data.debt_remaining debt_liquidated
        || is_ref_tick_liquidation_threshold s.current_data
      then (do t ← finish col_per_debt decimals debt_liquidated col_liquidated s; ok (done t))
      else (do t ← go_on debt_liquidated col_liquidated s; ok (again t))

unfoldable pub liquidate_round : ℕ → ℕ → ℤ → Liquidating → Result Round
liquidate_round col_per_debt decimals liquidation_tick s = do
  added ← add_debt s
  at_ref ← find_ref liquidation_tick added
  liquidate_to_ref col_per_debt decimals at_ref
