-- ===== src/Vaults/Operate/AddDebt.antt =====
-- `add_debt_to_tick` of `programs/vaults/src/utils/operate.rs`: the debt of a position is moved up to a
-- tick, and added to the debt of the tick. The accounts of the tick and of its liquidations are the ones
-- of the instruction.
use fluid_solana_programs.Base.{
  ℕ, ◌+◌, ◌^◌, ◌/◌, leb, ltb, ◌==◌, if◌then◌else◌, Bool, true, not, ◌&&◌,
}
use fluid_solana_programs.Base.Int.{ℤ, pos}
use fluid_solana_programs.Base.Errors.{
  panic, vault, vault_user_debt_too_low, vault_tick_debt_too_low,
}
use fluid_solana_programs.Base.Result.{Result, ok, err, ◌>>=◌, ◌>>◌, fail_if}
use fluid_solana_programs.Math.Words.{u32_max, u128_max, i32_max}
use fluid_solana_programs.Math.SafeMath.{safe_add, safe_sub, safe_mul, safe_div}
use fluid_solana_programs.Math.Signed
use fluid_solana_programs.Math.Tick.{get_tick_at_ratio, zero_tick_scaled_ratio, tick_spacing}
use fluid_solana_programs.Vaults.Constants.{four_decimals}
use fluid_solana_programs.Vaults.TickHasDebt.{TickHasDebtAccounts, update_tick_has_debt}
use fluid_solana_programs.Vaults.TickIdLiquidation
use fluid_solana_programs.Vaults.TickIdLiquidation.{TickIdLiquidation, set_tick_status}
use fluid_solana_programs.Vaults.Tick.{
  Tick, validate, has_been_liquidated, has_been_fully_liquidated, get_raw_debt, set_raw_debt,
}

-- The tick above the ratio of the position, its debt there, and what that is more than its own debt.
unfoldable pub debt_at_next_tick : ℕ → ℕ → Result (ℤ × ℕ × ℕ)
debt_at_next_tick total_col_raw net_debt_raw = do
  scaled ← safe_mul u128_max net_debt_raw zero_tick_scaled_ratio
  ratio ← safe_div scaled total_col_raw
  (floor_tick, ratio_at_tick) ← get_tick_at_ratio ratio
  tick ← Signed.safe_add i32_max floor_tick (pos 1)
  raised ← safe_mul u128_max ratio_at_tick tick_spacing
  ratio_new ← safe_div raised four_decimals
  product ← safe_mul u128_max ratio_new total_col_raw
  let user_raw_debt = product / 2 ^ 48
  dust_debt ← safe_sub user_raw_debt net_debt_raw
  ok (tick, user_raw_debt, dust_debt)

-- The accounts that change: the tick, its liquidations and the bitmap.
pub record TickState : Type 0 where
  pub tick_data : Tick
  pub tick_id_liquidation : TickIdLiquidation
  pub bitmap : TickHasDebtAccounts

abbrev pub is_live : Tick → Bool
is_live t = ltb 0 t.total_ids && not (has_been_liquidated t)

-- The debt is added to a tick that has not been liquidated since its last id.
unfoldable pub add_to_live_tick : ℤ → ℕ → TickState → Result (ℕ × TickState)
add_to_live_tick tick user_raw_debt s = do
  let existing = get_raw_debt s.tick_data
  tick_new_debt ← safe_add u128_max existing user_raw_debt
  bitmap ← if existing == 0 then update_tick_has_debt tick true s.bitmap else ok s.bitmap
  ok (tick_new_debt, record s { bitmap = bitmap })

-- The status of the last liquidation is kept under the old id of the tick.
unfoldable pub keep_status : ℤ → TickState → Result TickIdLiquidation
keep_status tick s =
    if ltb 0 s.tick_data.total_ids
    then (do
      TickIdLiquidation.validate tick s.tick_data.total_ids s.tick_id_liquidation
      set_tick_status s.tick_data.total_ids (has_been_fully_liquidated s.tick_data)
          s.tick_data.liquidation_branch_id s.tick_data.debt_factor s.tick_id_liquidation)
    else ok s.tick_id_liquidation

-- The tick is used for the first time, or for the first time after a liquidation; `+ 1` is on u32.
unfoldable pub start_tick : ℤ → ℕ → TickState → Result (ℕ × TickState)
unfolding keep_status
start_tick tick user_raw_debt s = do
  kept ← keep_status tick s
  bitmap ← update_tick_has_debt tick true s.bitmap
  tick_id ←
      if leb (s.tick_data.total_ids + 1) u32_max then ok (s.tick_data.total_ids + 1) else err panic
  ok (
    user_raw_debt,
    record {
      tick_data = record s.tick_data { total_ids = tick_id };
      tick_id_liquidation = kept;
      bitmap = bitmap;
    },
  )

unfoldable pub reset_tick : Tick → Tick
reset_tick t = record t {
  is_liquidated = 0;
  is_fully_liquidated = 0;
  liquidation_branch_id = 0;
  debt_factor = 0;
}

-- The tick, its id, the debt of the position there, its dust debt, and the accounts.
unfoldable pub add_debt_to_tick : ℕ → ℕ → ℕ → TickState → Result (ℤ × ℕ × ℕ × ℕ × TickState)
unfolding reset_tick
add_debt_to_tick total_col_raw net_debt_raw min_debt s = do
  fail_if (ltb net_debt_raw min_debt) (vault vault_user_debt_too_low)
  (tick, user_raw_debt, dust_debt) ← debt_at_next_tick total_col_raw net_debt_raw
  validate tick s.tick_data
  (tick_new_debt, updated) ←
      if is_live s.tick_data
      then add_to_live_tick tick user_raw_debt s
      else start_tick tick user_raw_debt s
  fail_if (ltb tick_new_debt min_debt) (vault vault_tick_debt_too_low)
  tick_data ← set_raw_debt tick_new_debt (reset_tick updated.tick_data)
  ok (
    tick,
    updated.tick_data.total_ids,
    user_raw_debt,
    dust_debt,
    record updated { tick_data = tick_data },
  )
