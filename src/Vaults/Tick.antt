-- ===== src/Vaults/Tick.antt =====
-- `programs/vaults/src/state/tick.rs`: the debt at a tick, until it is liquidated, and what
-- `get_next_ref_tick` takes as the end of a step of a liquidation.
use fluid_solana_programs.Base.{ℕ, ◌==◌, if◌then◌else◌, Bool, not, ◌&&◌, Option, none, some}
use fluid_solana_programs.Base.Int.{ℤ, ltb_ℤ, eqb_ℤ}
use fluid_solana_programs.Base.Errors.{vault, vault_tick_mismatch, vault_tick_not_found}
use fluid_solana_programs.Base.Result.{Result, ok, err, ◌>>=◌, fail_if}
use fluid_solana_programs.Math.Words.{u64_max}
use fluid_solana_programs.Math.Casting.{cast}

pub record Tick : Type 0 where
  pub vault_id : ℕ
  pub tick : ℤ
  pub is_liquidated : ℕ
  pub total_ids : ℕ
  pub raw_debt : ℕ
  pub is_fully_liquidated : ℕ
  pub liquidation_branch_id : ℕ
  pub debt_factor : ℕ

unfoldable pub validate : ℤ → Tick → Result (Unit {0})
validate tick t = fail_if (not (eqb_ℤ t.tick tick)) (vault vault_tick_mismatch)

abbrev pub has_been_liquidated : Tick → Bool
has_been_liquidated t = t.is_liquidated == 1

abbrev pub has_been_fully_liquidated : Tick → Bool
has_been_fully_liquidated t = t.is_fully_liquidated == 1

unfoldable pub set_liquidated : ℕ → ℕ → Tick → Tick
set_liquidated branch_id debt_factor t = record t {
  raw_debt = 0;
  is_liquidated = 1;
  debt_factor = debt_factor;
  liquidation_branch_id = branch_id;
}

unfoldable pub set_fully_liquidated : Tick → Tick
unfolding set_liquidated
set_fully_liquidated t = record (set_liquidated 0 0 t) { is_fully_liquidated = 1 }

-- A u64 fits into the u128 that `get_raw_debt` returns.
abbrev pub get_raw_debt : Tick → ℕ
get_raw_debt t = t.raw_debt

unfoldable pub set_raw_debt : ℕ → Tick → Result Tick
set_raw_debt new_raw_debt t = do debt ← cast u64_max new_raw_debt; ok (record t { raw_debt = debt })

abbrev pub get_tick_status : Tick → Bool × ℕ × ℕ
get_tick_status t = (has_been_fully_liquidated t, t.liquidation_branch_id, t.debt_factor)

-- The tick accounts of an instruction, by tick.
abbrev pub TickAccounts : Type 0
TickAccounts = ℤ → Option Tick

abbrev pub load : TickAccounts → ℤ → Result Tick
load s tick = elim (s tick) [ none ↦ err (vault vault_tick_not_found) | some t ↦ ok t ]

-- A tick that has been changed.
abbrev pub store : ℤ → Tick → TickAccounts → TickAccounts
store tick t s i = if eqb_ℤ i tick then some t else s i

-- The next tick with debt, the minima tick of the branch or the liquidation threshold, with its kind.
unfoldable pub get_next_ref_tick : ℤ → ℤ → ℤ → ℤ × ℕ
get_next_ref_tick minima_tick next_tick liquidation_tick =
    if ltb_ℤ next_tick minima_tick && ltb_ℤ liquidation_tick minima_tick
    then (minima_tick, 2)
    else if ltb_ℤ liquidation_tick next_tick
    then (next_tick, 1)
    else (liquidation_tick, 3)
