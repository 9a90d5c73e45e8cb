-- ===== src/Vaults/Operate/Latest.antt =====
-- `fetch_latest_position` of `programs/vaults/src/state/structs.rs`: what the liquidations since its last
-- change have left of a position. The `while` loop over merged branches runs on fuel, one for each branch
-- that is loaded; without fuel there is no outcome.
pub mod Chain
use fluid_solana_programs.Base.{
  ℕ, zero, suc, ◌+◌, ◌-◌, ltb, ◌==◌, if◌then◌else◌, Bool, true, false, ◌||◌, Option, none, some,
}
use fluid_solana_programs.Base.Int.{ℤ}
use fluid_solana_programs.Base.Result.{Result, ok, err, ◌>>=◌, ◌>>◌}
use fluid_solana_programs.Math.Words.{u64_max, u128_max}
use fluid_solana_programs.Math.Casting.{cast}
use fluid_solana_programs.Math.SafeMath.{safe_mul, safe_div}
use fluid_solana_programs.Math.Bn.{mul_big_number, mul_div_normal, max_mask_debt_factor}
use fluid_solana_programs.Math.Tick.{get_ratio_at_tick, zero_tick_scaled_ratio}
use fluid_solana_programs.Vaults.Constants.{four_decimals}
use fluid_solana_programs.Vaults.TickHasDebt.Indices.{cold_tick}
use fluid_solana_programs.Vaults.TickIdLiquidation
use fluid_solana_programs.Vaults.TickIdLiquidation.{TickIdLiquidation}
use fluid_solana_programs.Vaults.Tick
use fluid_solana_programs.Vaults.Tick.{Tick}
use fluid_solana_programs.Vaults.Branch
use fluid_solana_programs.Vaults.Branch.{
  Branch, BranchAccounts, is_merged, is_closed, get_current_partials_ratio,
}
use fluid_solana_programs.Vaults.Operate.{OperateMemoryVars}

-- Whether the position's tick id was liquidated as a whole, its branch and its connection factor.
unfoldable pub liquidation_status :
    OperateMemoryVars → Tick → TickIdLiquidation → Result (Bool × ℕ × ℕ)
liquidation_status m tick_data tick_id_liquidation =
    if tick_data.total_ids == m.tick_id then ok (Tick.get_tick_status tick_data) else (do
      TickIdLiquidation.validate m.tick m.tick_id tick_id_liquidation
      TickIdLiquidation.get_tick_status m.tick_id tick_id_liquidation)

-- What a merged branch leads to: the next branch, or the end with a position that is fully liquidated.
abbrev pub next_branch :
    ℕ
    → Branch
    → Result ℕ
    → (ℕ → Option (Result (ℕ × ℕ × Branch)))
    → Option (Result (ℕ × ℕ × Branch))
next_branch branch_id b (err code) rest = some (err code)
next_branch branch_id b (ok factor) rest =
    if factor == max_mask_debt_factor then some (ok (branch_id, factor, b)) else rest factor

abbrev pub visit_branch :
    ℕ
    → ℕ
    → Result Branch
    → (ℕ → ℕ → Option (Result (ℕ × ℕ × Branch)))
    → Option (Result (ℕ × ℕ × Branch))
visit_branch branch_id factor (err code) rest = some (err code)
visit_branch branch_id factor (ok b) rest =
    if is_merged b
    then next_branch branch_id b (mul_big_number factor b.debt_factor) (rest b.connected_branch_id)
    else some (ok (branch_id, factor, b))

-- The `while` loop: the branch where it stops, with the connection factor there.
unfoldable pub follow_merged : ℕ → BranchAccounts → ℕ → ℕ → Option (Result (ℕ × ℕ × Branch))
follow_merged zero branches branch_id factor = none
follow_merged (suc fuel) branches branch_id factor =
    visit_branch branch_id factor (Branch.load branches branch_id)
      (λ next_id next_factor. follow_merged fuel branches next_id next_factor)

unfoldable pub emptied : OperateMemoryVars → OperateMemoryVars
emptied m = record m { tick = cold_tick; debt_raw = 0; col_raw = 0 }

-- The debt after the liquidations, reduced by 0.01 %, or nothing where at most 1 % is left.
unfoldable pub debt_left : ℕ → ℕ → ℕ → Result ℕ
debt_left initial_debt min_debt_factor connection_factor = do
  debt ← cast u64_max initial_debt
  factor ← cast u64_max connection_factor
  left ← mul_div_normal debt min_debt_factor factor
  hundredth ← safe_div initial_debt 100
  if ltb hundredth left
      then (do scaled ← safe_mul u128_max left (four_decimals - 1); safe_div scaled four_decimals)
      else ok 0

-- The collateral of a debt at the ratio of the minima tick with its partials.
unfoldable pub col_at_minima : Branch → ℕ → Result ℕ
col_at_minima b debt = do
  ratio ← get_ratio_at_tick b.minima_tick
  (final_ratio, _) ← get_current_partials_ratio b.minima_tick_partials ratio
  scaled ← safe_mul u128_max debt zero_tick_scaled_ratio
  safe_div scaled final_ratio

-- The position at the branch where the loop has stopped.
unfoldable pub position_at : ℕ → Branch → OperateMemoryVars → Result OperateMemoryVars
unfolding emptied debt_left col_at_minima
position_at factor b m =
    if is_closed b || factor == max_mask_debt_factor then ok (emptied m) else (do
      debt ← debt_left m.debt_raw b.debt_factor factor
      if ltb 0 debt
          then (do
            col ← col_at_minima b debt
            ok (record m { tick = b.minima_tick; debt_raw = debt; col_raw = col }))
          else ok (emptied m))

abbrev pub at_stop : OperateMemoryVars → Result (ℕ × ℕ × Branch) → Result (ℕ × OperateMemoryVars)
at_stop m (err code) = err code
at_stop m (ok (branch_id, factor, b)) = do latest ← position_at factor b m; ok (branch_id, latest)

abbrev pub after_status :
    ℕ
    → BranchAccounts
    → OperateMemoryVars
    → Result (Bool × ℕ × ℕ)
    → Option (Result (ℕ × OperateMemoryVars))
after_status fuel branches m (err code) = some (err code)
after_status fuel branches m (ok (true, branch_id, factor)) = some (ok (branch_id, emptied m))
after_status fuel branches m (ok (false, branch_id, factor)) =
    elim (follow_merged fuel branches branch_id factor) [
      | none ↦ none
      | some stop ↦ some (at_stop m stop)
    ]

-- The branch of the position, and the position.
unfoldable pub fetch_latest_position :
    ℕ
    → OperateMemoryVars
    → Tick
    → TickIdLiquidation
    → BranchAccounts
    → Option (Result (ℕ × OperateMemoryVars))
unfolding liquidation_status emptied
fetch_latest_position fuel m tick_data tick_id_liquidation branches =
    after_status fuel branches m (liquidation_status m tick_data tick_id_liquidation)
