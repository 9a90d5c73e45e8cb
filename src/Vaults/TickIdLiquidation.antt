-- ===== src/Vaults/TickIdLiquidation.antt =====
-- `programs/vaults/src/state/tick_id_liquidation.rs`: the outcomes of three liquidations of a tick in
-- one account.
use fluid_solana_programs.Base.{
  ℕ, ◌+◌, ◌/◌, ◌%◌, ◌≤◌, ◌<◌, ◌≡◌, ◌≢◌, refl, arith, leb, ◌==◌, if◌then◌else◌, Bool, true, not,
}
use fluid_solana_programs.Base.Int.{ℤ, eqb_ℤ}
use fluid_solana_programs.Base.Errors.{panic, vault, vault_tick_id_liquidation_mismatch}
use fluid_solana_programs.Base.Result.{Result, ok, err, ◌>>=◌, fail_if}
use fluid_solana_programs.Math.Words.{u32_max}
use fluid_solana_programs.Math.SafeMath.{safe_add, safe_div}

pub record TickIdLiquidation : Type 0 where
  pub vault_id : ℕ
  pub tick : ℤ
  pub tick_map : ℕ
  pub is_fully_liquidated_1 : ℕ
  pub liquidation_branch_id_1 : ℕ
  pub debt_factor_1 : ℕ
  pub is_fully_liquidated_2 : ℕ
  pub liquidation_branch_id_2 : ℕ
  pub debt_factor_2 : ℕ
  pub is_fully_liquidated_3 : ℕ
  pub liquidation_branch_id_3 : ℕ
  pub debt_factor_3 : ℕ

unfoldable pub validate : ℤ → ℕ → TickIdLiquidation → Result (Unit {0})
validate tick tick_id t = do
  if eqb_ℤ t.tick tick
      then (do
        next ← safe_add u32_max tick_id 2
        map ← safe_div next 3
        fail_if (not (t.tick_map == map)) (vault vault_tick_id_liquidation_mismatch))
      else err (vault vault_tick_id_liquidation_mismatch)

-- `(tick_id + 2) % 3`, where the sum is a u32.
unfoldable pub slot : ℕ → Result ℕ
slot tick_id = if leb (tick_id + 2) u32_max then ok ((tick_id + 2) % 3) else err panic

abbrev pub flag : Bool → ℕ
flag b = if b then 1 else 0

unfoldable pub set_slot : ℕ → Bool → ℕ → ℕ → TickIdLiquidation → TickIdLiquidation
set_slot index fully branch_id debt_factor t =
    if index == 0
    then record t {
      is_fully_liquidated_1 = flag fully;
      liquidation_branch_id_1 = branch_id;
      debt_factor_1 = debt_factor;
    }
    else if index == 1
    then record t {
      is_fully_liquidated_2 = flag fully;
      liquidation_branch_id_2 = branch_id;
      debt_factor_2 = debt_factor;
    }
    else record t {
      is_fully_liquidated_3 = flag fully;
      liquidation_branch_id_3 = branch_id;
      debt_factor_3 = debt_factor;
    }

unfoldable pub set_tick_status : ℕ → Bool → ℕ → ℕ → TickIdLiquidation → Result TickIdLiquidation
set_tick_status tick_id fully branch_id debt_factor t = do
  index ← slot tick_id
  ok (set_slot index fully branch_id debt_factor t)

unfoldable pub get_slot : ℕ → TickIdLiquidation → Bool × ℕ × ℕ
get_slot index t =
    if index == 0
    then (t.is_fully_liquidated_1 == 1, t.liquidation_branch_id_1, t.debt_factor_1)
    else if index == 1
    then (t.is_fully_liquidated_2 == 1, t.liquidation_branch_id_2, t.debt_factor_2)
    else (t.is_fully_liquidated_3 == 1, t.liquidation_branch_id_3, t.debt_factor_3)

unfoldable pub get_tick_status : ℕ → TickIdLiquidation → Result (Bool × ℕ × ℕ)
get_tick_status tick_id t = do index ← slot tick_id; ok (get_slot index t)

set_slot-get_slot :
    (index : ℕ) (fully : Bool) (branch_id debt_factor : ℕ) (t : TickIdLiquidation)
    → get_slot index (set_slot index fully branch_id debt_factor t)
      ≡ (fully, branch_id, debt_factor)
unfolding get_slot set_slot
set_slot-get_slot index fully branch_id debt_factor t = ground arith

set_slot-other :
    (index other : ℕ) (fully : Bool) (branch_id debt_factor : ℕ) (t : TickIdLiquidation)
    → index < 3
    → other < 3
    → other ≢ index
    → get_slot other (set_slot index fully branch_id debt_factor t) ≡ get_slot other t
unfolding get_slot set_slot
set_slot-other index other fully branch_id debt_factor t hi ho apart = ground arith

-- The status that was set is read.
get_tick_status-same :
    (tick_id : ℕ) (fully : Bool) (branch_id debt_factor : ℕ) (t : TickIdLiquidation)
    → tick_id + 2 ≤ u32_max
    → (set_tick_status tick_id fully branch_id debt_factor t >>= get_tick_status tick_id)
      ≡ ok (fully, branch_id, debt_factor)
unfolding set_tick_status get_tick_status slot
get_tick_status-same tick_id fully branch_id debt_factor t h =
    let read = set_slot-get_slot ((tick_id + 2) % 3) fully branch_id debt_factor t in
    let fits : leb (tick_id + 2) u32_max ≡ true = ground arith in
    rw (fits, get_tick_status, read) refl

-- The status of another id of the same account stays as it was.
get_tick_status-other :
    (tick_id other : ℕ) (fully : Bool) (branch_id debt_factor : ℕ) (t : TickIdLiquidation)
    → tick_id + 2 ≤ u32_max
    → other + 2 ≤ u32_max
    → (tick_id + 2) / 3 ≡ (other + 2) / 3
    → other ≢ tick_id
    → (set_tick_status tick_id fully branch_id debt_factor t >>= get_tick_status other)
      ≡ get_tick_status other t
unfolding set_tick_status get_tick_status slot
get_tick_status-other tick_id other fully branch_id debt_factor t h k same apart =
    let read =
      set_slot-other ((tick_id + 2) % 3) ((other + 2) % 3) fully branch_id debt_factor t
        (omega arith) (omega arith) (omega arith) in
    let fits : leb (tick_id + 2) u32_max ≡ true = ground arith in
    let other_fits : leb (other + 2) u32_max ≡ true = ground arith in
    rw (fits, get_tick_status, other_fits, read) refl

-- Of two ids of a tick that share an account, with 2 added to either in u32: after `set_tick_status` of the
-- one, which succeeds, `get_tick_status` reads of it the status that was set, and of the other what it
-- read before.
pub get_tick_status-set_tick_status :
    (tick_id other : ℕ) (fully : Bool) (branch_id debt_factor : ℕ) (t : TickIdLiquidation)
    → tick_id + 2 ≤ u32_max
    → other + 2 ≤ u32_max
    → (tick_id + 2) / 3 ≡ (other + 2) / 3
    → other ≢ tick_id
    → ((set_tick_status tick_id fully branch_id debt_factor t >>= get_tick_status tick_id)
        ≡ ok (fully, branch_id, debt_factor))
      × ((set_tick_status tick_id fully branch_id debt_factor t >>= get_tick_status other)
          ≡ get_tick_status other t)
get_tick_status-set_tick_status tick_id other fully branch_id debt_factor t h k same apart = (
  get_tick_status-same tick_id fully branch_id debt_factor t h,
  get_tick_status-other tick_id other fully branch_id debt_factor t h k same apart,
)
