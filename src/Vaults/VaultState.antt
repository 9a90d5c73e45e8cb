-- ===== src/Vaults/VaultState.antt =====
-- `programs/vaults/src/state/vault_state.rs`: the totals of a vault, its current branch and topmost
-- tick. The setters that write one field are written out where they are called.
pub mod Prices
pub mod Dust
pub mod TopTick
use fluid_solana_programs.Base.{ℕ, ◌+◌, ◌-◌, ◌≡◌, leb, ltb, ◌==◌, if◌then◌else◌, Bool, not}
use fluid_solana_programs.Base.Int.{ℤ}
use fluid_solana_programs.Base.Errors.{panic, vault, vault_new_branch_invalid}
use fluid_solana_programs.Base.Result.{Result, ok, err, ◌>>=◌, ◌>>◌, fail_if}
use fluid_solana_programs.Math.Words.{u32_max, u64_max, u128_max}
use fluid_solana_programs.Math.Casting.{cast}
use fluid_solana_programs.Math.SafeMath.{safe_add, safe_sub}
use fluid_solana_programs.Vaults.TickHasDebt.Indices.{cold_tick}
use fluid_solana_programs.Vaults.Branch.{Branch, set_new_branch_state}

pub record VaultState : Type 0 where
  pub vault_id : ℕ
  pub branch_liquidated : ℕ
  pub topmost_tick : ℤ
  pub current_branch_id : ℕ
  pub total_branch_id : ℕ
  pub total_supply : ℕ
  pub total_borrow : ℕ
  pub total_positions : ℕ
  pub absorbed_debt_amount : ℕ
  pub absorbed_col_amount : ℕ
  pub absorbed_dust_debt : ℕ
  pub liquidity_supply_exchange_price : ℕ
  pub liquidity_borrow_exchange_price : ℕ
  pub vault_supply_exchange_price : ℕ
  pub vault_borrow_exchange_price : ℕ
  pub next_position_id : ℕ
  pub last_update_timestamp : ℕ

abbrev pub reset_branch_liquidated : VaultState → VaultState
reset_branch_liquidated v = record v { branch_liquidated = 0 }

abbrev pub set_branch_liquidated : VaultState → VaultState
set_branch_liquidated v = record v { branch_liquidated = 1 }

abbrev pub reset_top_tick : VaultState → VaultState
reset_top_tick v = record v { topmost_tick = cold_tick }

unfoldable pub update_state_at_liq_end : ℤ → ℕ → VaultState → VaultState
update_state_at_liq_end tick branch_id v = record (set_branch_liquidated v) {
  topmost_tick = tick;
  current_branch_id = branch_id;
}

unfoldable pub set_total_supply : ℕ → VaultState → Result VaultState
set_total_supply n v = do total ← cast u64_max n; ok (record v { total_supply = total })

unfoldable pub set_total_borrow : ℕ → VaultState → Result VaultState
set_total_borrow n v = do total ← cast u64_max n; ok (record v { total_borrow = total })

unfoldable pub reduce_total_supply : ℕ → VaultState → Result VaultState
reduce_total_supply amount v = do
  part ← cast u64_max amount
  left ← safe_sub v.total_supply part
  ok (record v { total_supply = left })

unfoldable pub reduce_total_borrow : ℕ → VaultState → Result VaultState
reduce_total_borrow amount v = do
  part ← cast u64_max amount
  left ← safe_sub v.total_borrow part
  ok (record v { total_borrow = left })

abbrev pub reset_absorbed_amounts : VaultState → VaultState
reset_absorbed_amounts v = record v { absorbed_debt_amount = 0; absorbed_col_amount = 0 }

unfoldable pub update_absorbed_dust_debt_amount : ℕ → ℕ → VaultState → Result VaultState
update_absorbed_dust_debt_amount dust_debt debt v = do
  sum ← safe_add u64_max v.absorbed_dust_debt dust_debt
  left ← safe_sub sum debt
  ok (record v { absorbed_dust_debt = left })

unfoldable pub add_absorbed_debt_amount : ℕ → VaultState → Result VaultState
add_absorbed_debt_amount debt v = do
  sum ← safe_add u128_max v.absorbed_debt_amount debt
  ok (record v { absorbed_debt_amount = sum })

unfoldable pub add_absorbed_col_amount : ℕ → VaultState → Result VaultState
add_absorbed_col_amount col v = do
  sum ← safe_add u128_max v.absorbed_col_amount col
  ok (record v { absorbed_col_amount = sum })

-- `self.total_branch_id += 1` on u32, and the new branch is the current one.
unfoldable pub update_branch_info_by_one : VaultState → Result VaultState
update_branch_info_by_one v =
    if leb (v.total_branch_id + 1) u32_max
    then ok (record (reset_branch_liquidated v) {
      total_branch_id = v.total_branch_id + 1;
      current_branch_id = v.total_branch_id + 1;
    })
    else err panic

unfoldable pub update_total_supply : ℕ → ℕ → VaultState → Result VaultState
unfolding set_total_supply
update_total_supply new_supply old_supply v = do
  sum ← safe_add u128_max v.total_supply new_supply
  raw ← safe_sub sum old_supply
  set_total_supply raw v

unfoldable pub update_total_borrow : ℕ → ℕ → VaultState → Result VaultState
unfolding set_total_borrow
update_total_borrow new_borrow old_borrow v = do
  sum ← safe_add u128_max v.total_borrow new_borrow
  raw ← safe_sub sum old_borrow
  set_total_borrow raw v

abbrev pub is_branch_liquidated : VaultState → Bool
is_branch_liquidated v = v.branch_liquidated == 1

-- The new branch is written only where the current one is liquidated.
unfoldable pub update_topmost_tick : ℤ → Branch → VaultState → Result (Branch × VaultState)
unfolding set_new_branch_state update_branch_info_by_one
update_topmost_tick tick new_branch v =
    if is_branch_liquidated v
    then (do
      next ← if leb (v.total_branch_id + 1) u32_max then ok (v.total_branch_id + 1) else err panic
      fail_if (not (next == new_branch.branch_id)) (vault vault_new_branch_invalid)
      updated ← update_branch_info_by_one v
      ok (
        set_new_branch_state v.current_branch_id v.topmost_tick new_branch,
        record updated { topmost_tick = tick },
      ))
    else ok (new_branch, record v { topmost_tick = tick })

-- `+= 1` on u32.
unfoldable pub update_next_position_id : VaultState → Result VaultState
update_next_position_id v =
    if leb (v.next_position_id + 1) u32_max
    then ok (record v { next_position_id = v.next_position_id + 1 })
    else err panic

unfoldable pub increase_total_positions : VaultState → Result VaultState
increase_total_positions v =
    if leb (v.total_positions + 1) u32_max
    then ok (record v { total_positions = v.total_positions + 1 })
    else err panic

-- `saturating_sub(1)`
unfoldable pub decrease_total_positions : VaultState → VaultState
decrease_total_positions v = record v { total_positions = v.total_positions - 1 }

abbrev pub get_tick_status : VaultState → ℕ
get_tick_status v = if is_branch_liquidated v then 2 else 1
