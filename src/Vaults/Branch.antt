-- ===== src/Vaults/Branch.antt =====
-- `programs/vaults/src/state/branch.rs`: a branch of liquidations, which ends where it was liquidated
-- down to (its minima tick) and hangs on the branch below. Its accounts are a function of the id. The
-- argument of `set_new_branch_state` is the part of the vault's state that it reads.
use fluid_solana_programs.Base.{ℕ, ◌+◌, leb, ltb, ◌==◌, if◌then◌else◌, Bool, Option, none, some}
use fluid_solana_programs.Base.Int.{ℤ}
use fluid_solana_programs.Base.Errors.{panic, vault, vault_branch_not_found}
use fluid_solana_programs.Base.Result.{Result, ok, err, ◌>>=◌}
use fluid_solana_programs.Math.Words.{u32_max, u64_max, u128_max}
use fluid_solana_programs.Math.Casting.{cast}
use fluid_solana_programs.Math.SafeMath.{safe_add, safe_sub, safe_mul, safe_div}
use fluid_solana_programs.Math.Tick.{tick_spacing}
use fluid_solana_programs.Vaults.Constants.{four_decimals, x30}
use fluid_solana_programs.Vaults.TickHasDebt.Indices.{cold_tick}

-- `BranchStatus`
abbrev pub not_liquidated : ℕ
not_liquidated = 0

abbrev pub liquidated : ℕ
liquidated = 1

abbrev pub merged : ℕ
merged = 2

abbrev pub closed : ℕ
closed = 3

pub record Branch : Type 0 where
  pub vault_id : ℕ
  pub branch_id : ℕ
  pub status : ℕ
  pub minima_tick : ℤ
  pub minima_tick_partials : ℕ
  pub debt_liquidity : ℕ
  pub debt_factor : ℕ
  pub connected_branch_id : ℕ
  pub connected_minima_tick : ℤ

unfoldable pub set_connections : ℕ → ℤ → Branch → Branch
set_connections branch_id minima_tick b = record b {
  connected_branch_id = branch_id;
  connected_minima_tick = minima_tick;
}

unfoldable pub reset_branch_data : Branch → Branch
reset_branch_data b = record b {
  status = not_liquidated;
  minima_tick = cold_tick;
  minima_tick_partials = 0;
  debt_liquidity = 0;
  debt_factor = 0;
  connected_branch_id = 0;
  connected_minima_tick = cold_tick;
}

abbrev pub set_status_as_merged : Branch → Branch
set_status_as_merged b = record b { status = merged }

unfoldable pub merge_with_base_branch : ℕ → Branch → Branch
merge_with_base_branch connection_factor b = record (set_status_as_merged b) {
  debt_factor = connection_factor;
  minima_tick = cold_tick;
  minima_tick_partials = 0;
  debt_liquidity = 0;
}

abbrev pub set_status_as_closed : Branch → Branch
set_status_as_closed b = record b { status = closed }

abbrev pub set_status_as_liquidated : Branch → Branch
set_status_as_liquidated b = record b { status = liquidated }

abbrev pub is_closed : Branch → Bool
is_closed b = b.status == closed

abbrev pub is_merged : Branch → Bool
is_merged b = b.status == merged

unfoldable pub set_branch_debt : ℕ → Branch → Result Branch
set_branch_debt new_debt b = do
  debt ← cast u64_max new_debt
  ok (record b { debt_liquidity = debt })

unfoldable pub update_state_at_liq_end : ℤ → ℕ → ℕ → ℕ → Branch → Result Branch
update_state_at_liq_end tick partials debt new_debt_factor b = do
  minima_partials ← cast u32_max partials
  with_debt ← set_branch_debt debt (record (set_status_as_liquidated b) {
    minima_tick = tick;
    minima_tick_partials = minima_partials;
  })
  factor ← cast u64_max new_debt_factor
  ok (record with_debt { debt_factor = factor })

-- The debt that is left of a branch is at least the minimum; `+` is on u128.
unfoldable pub update_debt_liquidity : ℕ → ℕ → Branch → Result Branch
unfolding set_branch_debt
update_debt_liquidity paid minimum b =
    if leb (paid + minimum) u128_max
    then (do
      let branch_debt = b.debt_liquidity
      left ← if ltb branch_debt (paid + minimum) then ok minimum else safe_sub branch_debt paid
      set_branch_debt left b)
    else err panic

-- `set_new_branch_state`, of the current branch and the topmost tick of the vault's state.
unfoldable pub set_new_branch_state : ℕ → ℤ → Branch → Branch
unfolding reset_branch_data
set_new_branch_state current_branch_id topmost_tick b = record (reset_branch_data b) {
  connected_branch_id = current_branch_id;
  connected_minima_tick = topmost_tick;
}

-- The branch accounts of an instruction, by branch id.
abbrev pub BranchAccounts : Type 0
BranchAccounts = ℕ → Option Branch

abbrev pub load : BranchAccounts → ℕ → Result Branch
load s branch_id = elim (s branch_id) [ none ↦ err (vault vault_branch_not_found) | some b ↦ ok b ]

abbrev pub store : ℕ → Branch → BranchAccounts → BranchAccounts
store branch_id b s i = if i == branch_id then some b else s i

-- The ratio between a tick and the one below that the partials stand for.
unfoldable pub get_current_partials_ratio : ℕ → ℕ → Result (ℕ × ℕ)
get_current_partials_ratio minima_tick_partials ratio = do
  scaled ← safe_mul u128_max ratio four_decimals
  ratio_one_less ← safe_div scaled tick_spacing
  length ← safe_sub ratio ratio_one_less
  weighted ← safe_mul u128_max length minima_tick_partials
  part ← safe_div weighted x30
  current_ratio ← safe_add u128_max ratio_one_less part
  ok (current_ratio, minima_tick_partials)

unfoldable pub get_tick_partials : ℕ → ℕ → Result ℕ
get_tick_partials ratio_one_less final_ratio = do
  scaled ← safe_mul u128_max ratio_one_less tick_spacing
  ratio ← safe_div scaled four_decimals
  length ← safe_sub ratio ratio_one_less
  above ← safe_sub final_ratio ratio_one_less
  weighted ← safe_mul u128_max above x30
  safe_div weighted length
