-- ===== src/Vaults/Operate/Latest/Chain.antt =====
-- The loop of `fetch_latest_position` over merged branches (`programs/vaults/src/state/structs.rs`) ends,
-- and the position is then empty or at the minima tick of a branch.
use fluid_solana_programs.Base.{
  ℕ, zero, suc, ◌<◌, ◌≡◌, refl, arith, ltb, ◌==◌, Bool, true, false, ◌||◌, Option, none, some, ◌⊎◌,
  inl, inr, Bool-cases,
}
use fluid_solana_programs.Base.Result.{Result, ok, err, Ensures, ◌>>=◌, >>=-eq-ok, run_if, run_else}
use fluid_solana_programs.Base.Errors.{vault, vault_branch_not_found}
use fluid_solana_programs.Math.Bn.{mul_big_number, max_mask_debt_factor}
use fluid_solana_programs.Vaults.TickIdLiquidation.{TickIdLiquidation}
use fluid_solana_programs.Vaults.Tick.{Tick}
use fluid_solana_programs.Vaults.Branch.{Branch, BranchAccounts, is_merged, is_closed}
use fluid_solana_programs.Vaults.Operate.{OperateMemoryVars}
use fluid_solana_programs.Vaults.Operate.Latest.{
  next_branch, visit_branch, follow_merged, emptied, debt_left, col_at_minima, position_at, at_stop,
  after_status, liquidation_status, fetch_latest_position,
}

-- Every merged branch leads to one of a lower rank.
abbrev pub IsRanked : (ℕ → ℕ) → BranchAccounts → Type 0
IsRanked rank branches =
    (id : ℕ) (b : Branch)
    → branches id ≡ some b
    → is_merged b ≡ true
    → rank b.connected_branch_id < rank id

-- A branch where the loop stops: it is loaded, and it is not merged or the factor is the greatest.
abbrev IsStop : BranchAccounts → ℕ × ℕ × Branch → Type 0
IsStop branches (id, factor, b) =
    (branches id ≡ some b) × ((is_merged b ≡ false) ⊎ ((factor == max_mask_debt_factor) ≡ true))

abbrev Stops : BranchAccounts → Option (Result (ℕ × ℕ × Branch)) → Type 0
Stops branches o = (r : Result (ℕ × ℕ × Branch)) × ((o ≡ some r) × Ensures (IsStop branches) r)

module _ (branches : BranchAccounts) where
  next-Stops :
      (id : ℕ) (b : Branch) (factor : Result ℕ) (rest : ℕ → Option (Result (ℕ × ℕ × Branch)))
      → branches id ≡ some b
      → ((k : ℕ) → Stops branches (rest k))
      → Stops branches (next_branch id b factor rest)
  next-Stops id b (err code) rest at all = (err code, (refl, tt))
  next-Stops id b (ok factor) rest at all = elim (Bool-cases (factor == max_mask_debt_factor)) [
    | inl full ↦ (ok (id, factor, b), (rw full refl, (at, inr full)))
    | inr less ↦ let (r, (same, stop)) = all factor in (r, (rw less same, stop))
  ]

  visit-Stops :
      (id factor : ℕ) (o : Option Branch) (rest : ℕ → ℕ → Option (Result (ℕ × ℕ × Branch)))
      → branches id ≡ o
      → ((b : Branch) (k : ℕ)
          → branches id ≡ some b
          → is_merged b ≡ true
          → Stops branches (rest b.connected_branch_id k))
      → Stops branches (
          visit_branch id factor
            (elim o [ none ↦ err (vault vault_branch_not_found) | some b ↦ ok b ])
            rest)
  visit-Stops id factor none rest at all = (err (vault vault_branch_not_found), (refl, tt))
  visit-Stops id factor (some b) rest at all = elim (Bool-cases (is_merged b)) [
    | inl merge ↦
        let (r, (same, stop)) =
          next-Stops id b (mul_big_number factor b.debt_factor) (rest b.connected_branch_id) at
            (λ (k : ℕ). all b k at merge) in
        (r, (rw merge same, stop))
    | inr single ↦ (ok (id, factor, b), (rw single refl, (at, inl single)))
  ]

  follow_merged-Stops :
      (rank : ℕ → ℕ)
      → IsRanked rank branches
      → (fuel id factor : ℕ) → rank id < fuel
      → Stops branches (follow_merged fuel branches id factor)
  unfolding follow_merged
  follow_merged-Stops rank ranked zero id factor enough = absurd (omega arith)
  follow_merged-Stops rank ranked (suc fuel) id factor enough =
      visit-Stops id factor (branches id) (λ (i : ℕ) (k : ℕ). follow_merged fuel branches i k) refl
        (λ (b : Branch) (k : ℕ) (at : branches id ≡ some b) (merge : is_merged b ≡ true).
          let lower = ranked id b at merge in
          follow_merged-Stops rank ranked fuel b.connected_branch_id k (omega arith))

-- The position at the minima tick of a branch that is loaded and is neither merged nor closed.
abbrev pub IsAtBranch : BranchAccounts → OperateMemoryVars → ℕ → OperateMemoryVars → Type 0
IsAtBranch branches m id latest =
    (b : Branch) × ((branches id ≡ some b)
      × (is_merged b ≡ false)
      × (is_closed b ≡ false)
      × (0 < latest.debt_raw)
      × (latest.tick ≡ b.minima_tick)
      × (latest.dust_debt_raw ≡ m.dust_debt_raw))

abbrev pub IsLatest : BranchAccounts → OperateMemoryVars → ℕ × OperateMemoryVars → Type 0
IsLatest branches m (id, latest) = (latest ≡ emptied m) ⊎ IsAtBranch branches m id latest

kept_position :
    (factor : ℕ) (b : Branch) (m : OperateMemoryVars) {latest : OperateMemoryVars}
    → (is_closed b || factor == max_mask_debt_factor) ≡ false
    → position_at factor b m ≡ ok latest
    → (latest ≡ emptied m)
      ⊎ ((0 < latest.debt_raw)
          × (latest.tick ≡ b.minima_tick)
          × (latest.dust_debt_raw ≡ m.dust_debt_raw))
unfolding position_at emptied
kept_position factor b m is_open run =
    let run₁ = run_else (is_closed b || factor == max_mask_debt_factor) _ _ is_open run in
    let (debt, _, run₂) = >>=-eq-ok (debt_left m.debt_raw b.debt_factor factor) _ run₁ in
    elim (Bool-cases (ltb 0 debt)) [
      | inr nothing ↦ let last = run_else (ltb 0 debt) _ _ nothing run₂ in inl (cc)
      | inl some_debt ↦
          let run₃ = run_if (ltb 0 debt) _ _ some_debt run₂ in
          let (col, _, last) = >>=-eq-ok (col_at_minima b debt) _ run₃ in
          inr (ground (arith, some_debt, last), ground (arith, last), ground (arith, last))
    ]

or_false : (a b : Bool) → (a || b) ≡ false → (a ≡ false) × (b ≡ false)
or_false false b h = (refl, h)
or_false true b h = cc

position_at-IsLatest :
    (branches : BranchAccounts) (id factor : ℕ) (b : Branch) (m : OperateMemoryVars)
    {latest : OperateMemoryVars}
    → IsStop branches (id, factor, b)
    → position_at factor b m ≡ ok latest
    → IsLatest branches m (id, latest)
unfolding position_at
position_at-IsLatest branches id factor b m (at, how) run =
    elim (Bool-cases (is_closed b || factor == max_mask_debt_factor)) [
      | inl shut ↦
          let last = run_if (is_closed b || factor == max_mask_debt_factor) _ _ shut run in inl (cc)
      | inr is_open ↦
          let (not_closed, not_full) =
            or_false (is_closed b) (factor == max_mask_debt_factor) is_open in
          elim (kept_position factor b m is_open run) [
            | inl empty ↦ inl empty
            | inr (p, tick, dust) ↦ elim how [
              | inl single ↦ inr (b, (at, single, not_closed, p, tick, dust))
              | inr full ↦ absurd (ground (arith, full, not_full))
            ]
          ]
    ]

at_stop-IsLatest :
    (branches : BranchAccounts) (m : OperateMemoryVars) (r : Result (ℕ × ℕ × Branch))
    → Ensures (IsStop branches) r
    → Ensures (IsLatest branches m) (at_stop m r)
at_stop-IsLatest branches m (err code) stop = tt
at_stop-IsLatest branches m (ok (id, factor, b)) stop =
    placed (position_at factor b m)
      (λ (latest : OperateMemoryVars) (run : position_at factor b m ≡ ok latest).
        position_at-IsLatest branches id factor b m stop run)
  where
    placed :
        (r : Result OperateMemoryVars)
        → ((latest : OperateMemoryVars) → r ≡ ok latest → IsLatest branches m (id, latest))
        → Ensures
            (IsLatest branches m)
            (◌>>=◌ {T = ℕ × OperateMemoryVars} r (λ latest. ok (id, latest)))
    placed (err code) all = tt
    placed (ok latest) all = all latest refl

-- Where every merged branch leads to one of a lower rank, and the fuel is more than the rank of every
-- branch: `fetch_latest_position` ends. If it returns, the position is emptied (no debt, no
-- collateral, the cold tick), or its debt is positive, its dust debt is as before, and it is at the
-- minima tick of the branch that is returned, which is loaded and is neither merged nor closed.
pub fetch_latest_position-IsLatest :
    (rank : ℕ → ℕ) (fuel : ℕ) (m : OperateMemoryVars) (tick_data : Tick)
    (tick_id_liquidation : TickIdLiquidation) (branches : BranchAccounts)
    → IsRanked rank branches
    → ((id : ℕ) → rank id < fuel)
    → (r : Result (ℕ × OperateMemoryVars)) × ((fetch_latest_position fuel m tick_data
            tick_id_liquidation branches
          ≡ some r)
        × Ensures (IsLatest branches m) r)
unfolding fetch_latest_position
fetch_latest_position-IsLatest rank fuel m tick_data tick_id_liquidation branches ranked enough =
    from_status (liquidation_status m tick_data tick_id_liquidation)
  where
    from_status :
        (status : Result (Bool × ℕ × ℕ))
        → (r : Result (ℕ × OperateMemoryVars)) × ((after_status fuel branches m status ≡ some r)
            × Ensures (IsLatest branches m) r)
    from_status (err code) = (err code, (refl, tt))
    from_status (ok (true, id, factor)) = (ok (id, emptied m), (refl, inl refl))
    from_status (ok (false, id, factor)) =
        let (r, (same, stop)) =
          follow_merged-Stops branches rank ranked fuel id factor (enough id) in
        (at_stop m r, (rw (after_status, same) refl, at_stop-IsLatest branches m r stop))
