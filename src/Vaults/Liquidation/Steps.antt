-- ===== src/Vaults/Liquidation/Steps.antt =====
-- What each part of a round of a liquidation (`liquidate` of `programs/vaults/src/module/user.rs`) does to
-- the amounts.
use fluid_solana_programs.Base.{ℕ, ◌+◌, ◌≤◌, ◌≡◌, arith, Bool-cases, inl, inr, if◌then◌else◌}
use fluid_solana_programs.Base.Int.{ℤ}
use fluid_solana_programs.Base.Result.{ok, >>=-eq-ok, run_if}
use fluid_solana_programs.Math.SafeMath.{safe_add, safe_sub}
use fluid_solana_programs.Vaults.Branch.{BranchAccounts, update_state_at_liq_end}
use fluid_solana_programs.Vaults.Branch
use fluid_solana_programs.Vaults.Common.{get_minimum_branch_debt}
use fluid_solana_programs.Vaults.Tick.{TickAccounts}
use fluid_solana_programs.Vaults.CurrentLiquidity.{
  CurrentLiquidity, TickMemoryVars, update_next_iterations_with_ref, update_totals,
  reduce_debt_remaining, get_debt_factor, is_ref_tick_liquidated,
}
use fluid_solana_programs.Vaults.CurrentLiquidity.Amounts.{update_totals-balanced}
use fluid_solana_programs.Vaults.Liquidation.{
  BranchMemoryVars, end_liquidate, update_branch_debt_factor,
}
use fluid_solana_programs.Vaults.Liquidation.Balance.{end_liquidate-balanced}
use fluid_solana_programs.Vaults.Liquidation.Loop.{
  Liquidating, again, done, take_debt, add_debt, find_next_tick, load_ref, find_ref, finish,
  merge_branch, go_on,
}

-- `n` more debt can be liquidated, and nothing else has changed.
abbrev pub Added : ℕ → CurrentLiquidity → CurrentLiquidity → Type 0
Added n d e =
    (e.debt ≡ d.debt + n)
    × (e.debt_remaining ≡ d.debt_remaining)
    × (e.total_debt_liq ≡ d.total_debt_liq)

-- Debt moves from what can be liquidated and from what remains to what has been liquidated.
abbrev pub Moved : CurrentLiquidity → CurrentLiquidity → Type 0
Moved d e =
    (e.total_debt_liq + e.debt ≡ d.total_debt_liq + d.debt)
    × (e.total_debt_liq + e.debt_remaining ≡ d.total_debt_liq + d.debt_remaining)

pub add_debt-Added :
    (s : Liquidating) {t : Liquidating} (n : ℕ) (ticks : TickAccounts)
    → take_debt s ≡ ok (n, ticks)
    → add_debt s ≡ ok t
    → Added n s.current_data t.current_data
unfolding add_debt safe_add
add_debt-Added s n ticks taken run = ground (arith, taken)

find_next_tick-same :
    (liquidation_tick : ℤ) (s : Liquidating) {t : Liquidating}
    → find_next_tick liquidation_tick s ≡ ok t
    → s.current_data ≡ t.current_data
unfolding find_next_tick
find_next_tick-same liquidation_tick s run = ground arith

load_ref-Added :
    (d : CurrentLiquidity) (s : Liquidating) {t : Liquidating}
    → load_ref d s ≡ ok t
    → Added 0 d t.current_data
unfolding load_ref
load_ref-Added d s run = ground arith

merge_branch-same :
    (s : Liquidating) {t : Liquidating} → merge_branch s ≡ ok t → s.current_data ≡ t.current_data
unfolding merge_branch
merge_branch-same s run = ground arith

pub find_ref-Added :
    (liquidation_tick : ℤ) (s : Liquidating) {t : Liquidating}
    → find_ref liquidation_tick s ≡ ok t
    → Added 0 s.current_data t.current_data
unfolding find_ref
find_ref-Added liquidation_tick s run =
    let (found, run_find, last) = >>=-eq-ok (find_next_tick liquidation_tick s) _ run in
    let same = find_next_tick-same liquidation_tick s run_find in
    let added = load_ref-Added _ found last in rw same added

maybe_merge :
    (s : Liquidating) {t : Liquidating}
    → (if is_ref_tick_liquidated s.current_data then merge_branch s else ok s) ≡ ok t
    → s.current_data ≡ t.current_data
maybe_merge s run = elim (Bool-cases (is_ref_tick_liquidated s.current_data)) [
  | inl merge ↦ merge_branch-same s (run_if (is_ref_tick_liquidated s.current_data) _ _ merge run)
  | inr keep ↦ ground (arith, keep)
]

reduced_amounts :
    (debt : ℕ) (d : CurrentLiquidity) {e : CurrentLiquidity}
    → reduce_debt_remaining debt d ≡ ok e
    → (e.debt_remaining + debt ≡ d.debt_remaining)
      × (e.debt ≡ d.debt)
      × (e.total_debt_liq ≡ d.total_debt_liq)
unfolding reduce_debt_remaining safe_sub
reduced_amounts debt d run = ground arith

moved :
    (debt col : ℕ) (d reduced updated : CurrentLiquidity)
    → reduce_debt_remaining debt d ≡ ok reduced
    → update_totals debt col reduced ≡ ok updated
    → Moved d updated
moved debt col d reduced updated run_reduce run_totals =
    let less = reduced_amounts debt d run_reduce in
    let totals = update_totals-balanced debt col reduced run_totals in (omega arith, omega arith)

at_next_tick :
    (d e : CurrentLiquidity) (s t : Liquidating)
    → Moved d e
    → e ≡ s.current_data
    → ok (record s { current_data = update_next_iterations_with_ref s.current_data }) ≡ ok t
    → Moved d t.current_data
unfolding update_next_iterations_with_ref
at_next_tick d e s t m same last = ground (arith, m, same)

pub go_on-Moved :
    (debt col : ℕ) (s : Liquidating) {t : Liquidating}
    → go_on debt col s ≡ ok t
    → Moved s.current_data t.current_data
unfolding go_on
go_on-Moved debt col s {t} run =
    let (factor, _, run₁) = >>=-eq-ok (get_debt_factor debt s.current_data) _ run in
    let (reduced, run_reduce, run₂) =
      >>=-eq-ok (reduce_debt_remaining debt s.current_data) _ run₁ in
    let (d, run_totals, run₃) = >>=-eq-ok (update_totals debt col reduced) _ run₂ in
    let (v, _, run₄) = >>=-eq-ok (update_branch_debt_factor factor s.branch) _ run₃ in
    let updated : Liquidating = record s { current_data = d; branch = v } in
    let (merged, run_merge, last) =
      >>=-eq-ok (if is_ref_tick_liquidated d then merge_branch updated else ok updated) _ run₄ in
    at_next_tick s.current_data d merged t
      (moved debt col s.current_data reduced d run_reduce run_totals)
      (maybe_merge updated run_merge) last

finished :
    (s t : Liquidating) (d : CurrentLiquidity) (u : TickMemoryVars) (v : BranchMemoryVars)
    (accounts : BranchAccounts)
    → ok (record s { current_data = d; tick_info = u; branch = v; branch_accounts = accounts })
      ≡ ok t
    → d ≡ t.current_data
finished s t d u v accounts last = cc

abbrev pub Finished : CurrentLiquidity → CurrentLiquidity → Type 0
Finished d e =
    (e.total_debt_liq + e.debt ≡ d.total_debt_liq + d.debt)
    × (e.total_debt_liq ≤ d.total_debt_liq + d.debt_remaining)

pub again_same :
    (s t : Liquidating) {u : Liquidating}
    → Moved s.current_data t.current_data
    → ok (again t) ≡ ok (again u)
    → Moved s.current_data u.current_data
again_same s t {u} m same = let same' : t.current_data ≡ u.current_data = cc in rw (← same') m

pub done_same :
    (s t : Liquidating) {u : Liquidating}
    → Finished s.current_data t.current_data
    → ok (done t) ≡ ok (done u)
    → Finished s.current_data u.current_data
done_same s t {u} m same = let same' : t.current_data ≡ u.current_data = cc in rw (← same') m

pub finish-bounds :
    (col_per_debt decimals debt col : ℕ) (s : Liquidating) {t : Liquidating}
    → finish col_per_debt decimals debt col s ≡ ok t
    → Finished s.current_data t.current_data
unfolding finish
finish-bounds col_per_debt decimals debt col s {t} run =
    let (minimum, _, run₁) = >>=-eq-ok (get_minimum_branch_debt decimals) _ run in
    let ((d, u, v), run_end, run₂) =
      >>=-eq-ok (end_liquidate col_per_debt minimum debt col s.current_data s.tick_info s.branch) _
        run₁ in
    let (b, _, run₃) = >>=-eq-ok (Branch.load s.branch_accounts v.id) _ run₂ in
    let (updated, _, last) =
      >>=-eq-ok (update_state_at_liq_end u.tick u.partials d.debt v.debt_factor b) _ run₃ in
    let ended =
      end_liquidate-balanced col_per_debt minimum debt col s.current_data s.tick_info s.branch
        run_end in
    let same : d ≡ t.current_data = finished s t d u v _ last in rw (← same) (ended.2, ended.0)
