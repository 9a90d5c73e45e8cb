-- ===== src/Vaults/VaultState/TopTick.antt =====
-- `set_top_tick` of `programs/vaults/src/state/vault_state.rs`, which runs when the last debt leaves the
-- topmost tick: the next one is the minima tick of the base branch or the next tick with debt.
use fluid_solana_programs.Base.{
  ◌∙◌, ◌≤◌, ◌/◌, Option, some, none, ℕ, ◌-◌, ◌≡◌, ◌==◌, if◌then◌else◌, true, false, ◌<◌, arith, inl,
  inr, Bool-cases, refl,
}
use fluid_solana_programs.Base.Int.{ℤ, pos, negsuc, ltb_ℤ, eqb_ℤ}
use fluid_solana_programs.Base.Errors.{panic}
use fluid_solana_programs.Base.Result.{Result, ok, err, ◌>>=◌, >>=-eq-ok}
use fluid_solana_programs.Vaults.TickHasDebt.{TickHasDebtAccounts, fetch_next_top_tick}
use fluid_solana_programs.Vaults.TickHasDebt.Places.{tick_at, last_place}
use fluid_solana_programs.Vaults.TickSet.{has_debt, IsArray, highest, tick_or_cold}
use fluid_solana_programs.Vaults.TickSet.Search.{fetch_next_top_tick-cleared}
use fluid_solana_programs.Vaults.TickHasDebt.Indices.{cold_tick}
use fluid_solana_programs.Vaults.Branch.{Branch, BranchAccounts, load, store, reset_branch_data}
use fluid_solana_programs.Vaults.VaultState.{
  VaultState, reset_top_tick, reset_branch_liquidated, set_branch_liquidated,
}

-- The vault and its branch, once the next tick with debt is known; `branch_id - 1` is on u32.
unfoldable pub choose_top_tick : ℤ → Branch → VaultState → Result (ℤ × Branch × VaultState)
unfolding reset_branch_data
choose_top_tick next_tick current_branch v =
    let new_top_tick =
      if ltb_ℤ next_tick current_branch.connected_minima_tick
      then current_branch.connected_minima_tick
      else next_tick in
    if eqb_ℤ new_top_tick cold_tick
    then ok (new_top_tick, current_branch, reset_branch_liquidated (reset_top_tick v))
    else if eqb_ℤ new_top_tick next_tick
    then ok (
      new_top_tick,
      current_branch,
      reset_branch_liquidated (record v { topmost_tick = new_top_tick }),
    )
    else if v.current_branch_id == 0
    then err panic
    else ok (
      new_top_tick,
      reset_branch_data current_branch,
      record (set_branch_liquidated v) {
        topmost_tick = current_branch.connected_minima_tick;
        current_branch_id = current_branch.connected_branch_id;
        total_branch_id = v.current_branch_id - 1;
      },
    )

unfoldable pub set_top_tick :
    BranchAccounts
    → TickHasDebtAccounts
    → VaultState
    → Result (ℤ × BranchAccounts × TickHasDebtAccounts × VaultState)
set_top_tick branches bitmap v = do
  current_branch ← load branches v.current_branch_id
  (next_tick, cleared) ← fetch_next_top_tick v.topmost_tick bitmap
  (new_top_tick, branch, w) ← choose_top_tick next_tick current_branch v
  ok (new_top_tick, store v.current_branch_id branch branches, cleared, w)

eqb_ℤ-sound : (a b : ℤ) → eqb_ℤ a b ≡ true → a ≡ b
eqb_ℤ-sound (pos m) (pos n) h = ground arith
eqb_ℤ-sound (negsuc m) (negsuc n) h = ground arith
eqb_ℤ-sound (pos m) (negsuc n) h = ground arith
eqb_ℤ-sound (negsuc m) (pos n) h = ground arith

eqb_ℤ-refl : (a : ℤ) → eqb_ℤ a a ≡ true
eqb_ℤ-refl (pos n) = ground arith
eqb_ℤ-refl (negsuc n) = ground arith

ltb_ℤ-eqb_ℤ : (a b : ℤ) → ltb_ℤ a b ≡ true → eqb_ℤ b a ≡ false
ltb_ℤ-eqb_ℤ (pos m) (pos n) h = ground arith
ltb_ℤ-eqb_ℤ (pos m) (negsuc n) h = refl
ltb_ℤ-eqb_ℤ (negsuc m) (pos n) h = refl
ltb_ℤ-eqb_ℤ (negsuc m) (negsuc n) h = ground arith

above-eqb_ℤ : (a b c : ℤ) → ltb_ℤ a b ≡ true → ltb_ℤ a c ≡ false → eqb_ℤ b c ≡ false
above-eqb_ℤ a b c h k = elim (Bool-cases (eqb_ℤ b c)) [
  | inl same ↦
      let eq = eqb_ℤ-sound b c same in
      let below : ltb_ℤ a c ≡ true = rw (← eq) h in absurd (ground (arith, below, k))
  | inr apart ↦ apart
]

-- The greater of two ticks, the second where they are equal.
abbrev pub greater : ℤ → ℤ → ℤ
greater a b = if ltb_ℤ b a then a else b

-- The topmost tick that is returned, the one in the vault's state, and whether its branch is liquidated.
abbrev pub top_of : ℤ × Branch × VaultState → Result (ℤ × ℤ × ℕ)
top_of (tick, _, v) = ok (tick, v.topmost_tick, v.branch_liquidated)

-- The same of what `set_top_tick` returns.
abbrev pub top_of_vault : ℤ × BranchAccounts × TickHasDebtAccounts × VaultState → Result (ℤ × ℤ × ℕ)
top_of_vault (tick, _, _, v) = ok (tick, v.topmost_tick, v.branch_liquidated)

tick_or_cold-ge : (h : Option ℕ) → ltb_ℤ (tick_or_cold h) cold_tick ≡ false
tick_or_cold-ge none = refl
tick_or_cold-ge (some g) = ground arith

same_search :
    (s : TickHasDebtAccounts) (a b : ℤ) → a ≡ b → fetch_next_top_tick a s ≡ fetch_next_top_tick b s
same_search s a b eq = cc

choose_top_tick-greater :
    (next_tick : ℤ) (b : Branch) (v : VaultState)
    → ltb_ℤ next_tick cold_tick ≡ false
    → 0 < v.current_branch_id
    → (choose_top_tick next_tick b v >>= top_of)
      ≡ ok (
        greater b.connected_minima_tick next_tick,
        greater b.connected_minima_tick next_tick,
        if ltb_ℤ next_tick b.connected_minima_tick then 1 else 0,
      )
unfolding choose_top_tick
choose_top_tick-greater next_tick b v not_below_cold numbered =
    elim (Bool-cases (ltb_ℤ next_tick b.connected_minima_tick)) [
      | inl base ↦
          let not_cold =
            above-eqb_ℤ next_tick b.connected_minima_tick cold_tick base not_below_cold in
          let apart = ltb_ℤ-eqb_ℤ next_tick b.connected_minima_tick base in
          let some_branch : (v.current_branch_id == 0) ≡ false = ground arith in
          rw (choose_top_tick, base, not_cold, apart, some_branch) refl
      | inr next ↦ elim (Bool-cases (eqb_ℤ next_tick cold_tick)) [
        | inl none_left ↦
            let cold = eqb_ℤ-sound next_tick cold_tick none_left in
            rw (choose_top_tick, next, none_left) (rw cold refl)
        | inr some_left ↦ rw (choose_top_tick, next, some_left, eqb_ℤ-refl next_tick) refl
      ]
    ]

module _ (branches : BranchAccounts) (bitmap : TickHasDebtAccounts) (v : VaultState) (b : Branch)
    (n : ℕ) (at_top : v.topmost_tick ≡ tick_at n) (in_range : n ≤ last_place)
    (loaded : (k : ℕ) → k ≤ n / 2048 → IsArray k (bitmap k))
    (current : branches v.current_branch_id ≡ some b) (numbered : 0 < v.current_branch_id) where
  -- Where the topmost tick is in the range, the arrays of the bitmap from its own down are loaded, and
  -- the current branch is loaded and has a positive id: `set_top_tick` succeeds. The new topmost tick
  -- is the greater of the minima tick of the base branch and the greatest tick with debt below the old
  -- one, it is returned, and the current branch is liquidated exactly where it is the minima tick that
  -- is greater.
  pub set_top_tick-greater :
      let next_tick = tick_or_cold (highest (has_debt bitmap) n) in
      (set_top_tick branches bitmap v >>= top_of_vault)
      ≡ ok (
        greater b.connected_minima_tick next_tick,
        greater b.connected_minima_tick next_tick,
        if ltb_ℤ next_tick b.connected_minima_tick then 1 else 0,
      )
  unfolding set_top_tick
  set_top_tick-greater =
      let (a, found, _) = fetch_next_top_tick-cleared bitmap n in_range loaded in
      let from_top = same_search bitmap v.topmost_tick (tick_at n) at_top ∙ found in
      let next_tick = tick_or_cold (highest (has_debt bitmap) n) in
      let chosen =
        choose_top_tick-greater next_tick b v (tick_or_cold-ge (highest (has_debt bitmap) n))
          numbered in
      let (_, runs, rest) = >>=-eq-ok (choose_top_tick next_tick b v) top_of chosen in
      rw (load, current, from_top, runs) rest
