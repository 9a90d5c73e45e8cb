-- ===== src/Vaults/TickSet/Liquidate.antt =====
-- The search of a liquidation (`fetch_next_tick_liquidate` in
-- `programs/vaults/src/state/tick_has_debt.rs`) passes over no tick at or above the threshold.
use fluid_solana_programs.Base.{
  ◌⊎◌, inl, inr, Bool-cases, ℕ, zero, suc, ◌+◌, ◌*◌, ◌/◌, ◌%◌, ◌≤◌, ◌<◌, ◌≡◌, refl, arith,
  if◌then◌else◌, ◌==◌, Bool, true, false, Option, none, some,
}
use fluid_solana_programs.Base.Int.{ltb_ℤ, ℤ}
use fluid_solana_programs.Base.Errors.{panic}
use fluid_solana_programs.Base.Result.{Result, ok, err}
use fluid_solana_programs.Vaults.TickHasDebt.{
  TickHasDebtArray, TickHasDebtAccounts, fetch_in_array, or_below_threshold, search_liquidate,
  fetch_next_tick_liquidate, store,
}
use fluid_solana_programs.Vaults.TickHasDebt.Indices.{cold_tick}
use fluid_solana_programs.Vaults.TickHasDebt.Places.{
  tick_at, last_place, get_tick_indices-tick_at, first_tick_of_map,
}
use fluid_solana_programs.Vaults.TickSet.{has_debt, IsArray, highest, tick_or_cold}
use fluid_solana_programs.Vaults.TickSet.Highest.{cong_highest, highest-member}
use fluid_solana_programs.Vaults.TickSet.Bits.{
  loaded_array, load-some, clear_bits-has_debt, clear_bits-IsArray, store-IsArray,
}
use fluid_solana_programs.Vaults.TickSet.InArray.{Finds, here, passed}
use fluid_solana_programs.Vaults.TickSet.Search.{
  load_and_search, highest-zero, suc_is_not_zero, cleared_from, highest_of_cleared,
}

-- The greatest member below a place is returned, or the search has stopped above it because it is
-- below the threshold.
abbrev pub Stops : ℤ → Option ℕ → ℤ → Type 0
Stops liquidation_tick greatest tick =
    (tick ≡ tick_or_cold greatest)
    ⊎ ((tick ≡ cold_tick) × (ltb_ℤ (tick_or_cold greatest) liquidation_tick ≡ true))

below_first :
    (p : ℕ → Bool) (i m : ℕ) (liquidation_tick : ℤ) (h : Option ℕ)
    → i < 16
    → m < 8
    → highest p (2048 * i) ≡ h
    → ltb_ℤ (tick_at (2048 * i + 256 * m)) liquidation_tick ≡ true
    → ltb_ℤ (tick_or_cold h) liquidation_tick ≡ true
below_first p i m liquidation_tick none in_i in_m at low = ground arith
below_first p i m liquidation_tick (some g) in_i in_m at low =
    let (below, _) = highest-member p (2048 * i) g at in ground arith

module _ (s : TickHasDebtAccounts) (liquidation_tick : ℤ) where
  in_first_array :
      (a : TickHasDebtArray) (m : ℕ) (lower : Result ℤ)
      → Finds
          (has_debt s)
          (2048 * 0)
          (2048 * 0 + 256 * m + 256)
          (ok (cold_tick, 0 == 0))
          (fetch_in_array a m)
      → (found : ℤ) × (or_below_threshold a liquidation_tick m lower ≡ ok found)
        × Stops liquidation_tick (highest (has_debt s) (2048 * 0 + 256 * m + 256)) found
  unfolding or_below_threshold
  in_first_array a m lower (here g at found) = (tick_at g, rw found refl, inl (rw at refl))
  in_first_array a m lower (passed at found) =
      (cold_tick, rw found refl, inl (rw (at, highest-zero (has_debt s)) refl))

  in_later_array :
      (a : TickHasDebtArray) (i m : ℕ) (lower : Result ℤ) (tick : ℤ)
      → suc i < 16
      → m < 8
      → a.index ≡ suc i
      → Finds
          (has_debt s)
          (2048 * suc i)
          (2048 * suc i + 256 * m + 256)
          (ok (cold_tick, suc i == 0))
          (fetch_in_array a m)
      → lower ≡ ok tick
      → Stops liquidation_tick (highest (has_debt s) (2048 * suc i)) tick
      → (found : ℤ) × (or_below_threshold a liquidation_tick m lower ≡ ok found)
        × Stops liquidation_tick (highest (has_debt s) (2048 * suc i + 256 * m + 256)) found
  unfolding or_below_threshold
  in_later_array a i m lower tick in_i in_m index (here g at found) below stops =
      (tick_at g, rw found refl, inl (rw at refl))
  in_later_array a i m lower tick in_i in_m index (passed at found) below stops =
      elim (Bool-cases (ltb_ℤ (tick_at (2048 * suc i + 256 * m)) liquidation_tick)) [
        | inl low ↦ (
          cold_tick,
          rw (found, suc_is_not_zero i, index, first_tick_of_map (suc i) m in_i in_m, low) refl,
          inr (
            refl,
            rw at (
                below_first (has_debt s) (suc i) m liquidation_tick
                  (highest (has_debt s) (2048 * suc i)) in_i in_m refl low),
          ),
        )
        | inr high ↦ (
          tick,
          rw (found, suc_is_not_zero i, index, first_tick_of_map (suc i) m in_i in_m, high) below,
          rw at stops,
        )
      ]

  search_liquidate-Stops :
      (i m : ℕ)
      → i < 16
      → m < 8
      → ((k : ℕ) → k ≤ i → IsArray k (s k))
      → (found : ℤ) × (search_liquidate s liquidation_tick i m ≡ ok found)
        × Stops liquidation_tick (highest (has_debt s) (2048 * i + 256 * m + 256)) found
  unfolding search_liquidate
  search_liquidate-Stops zero m in_i in_m loaded =
      let (a, load_a, _, finds) = load_and_search s 0 m in_i in_m (loaded 0 (omega arith)) in
      rw load_a (in_first_array a m (err panic) finds)
  search_liquidate-Stops (suc i) m in_i in_m loaded =
      let (a, load_a, index, finds) =
        load_and_search s (suc i) m in_i in_m (loaded (suc i) (omega arith)) in
      let (tick, below, stops) =
        search_liquidate-Stops i 7 (omega arith) (omega arith) (λ k le. loaded k (omega arith)) in
      let next =
        cong_highest (has_debt s) (2048 * suc i) (2048 * i + 256 * 7 + 256) (omega arith) in
      rw load_a (
        in_later_array a i m (search_liquidate s liquidation_tick i 7) tick in_i in_m index finds
          below (rw next stops))

module _ (s : TickHasDebtAccounts) (n : ℕ) (liquidation_tick : ℤ) (in_range : n ≤ last_place)
    (loaded : (k : ℕ) → k ≤ n / 2048 → IsArray k (s k)) where
  -- Where the tick is in the range and its array and all lower ones are loaded: the search of a liquidation succeeds,
  -- and it returns the greatest tick with debt below the given one, when it clears the bits from
  -- there, else the greatest up to the end of the map of the given one; or it returns the cold tick,
  -- and that greatest tick, where there is one, is below the liquidation threshold.
  pub fetch_next_tick_liquidate-Stops :
      (clear : Bool)
      → (found : ℤ) × (updated : TickHasDebtAccounts) × (fetch_next_tick_liquidate
            (tick_at n)
            liquidation_tick
            clear
            s
          ≡ ok (found, updated))
        × Stops liquidation_tick
            (highest
              (has_debt s)
              (if clear then n else 2048 * (n / 2048) + 256 * (n / 256 % 8) + 256))
            found
  unfolding fetch_next_tick_liquidate
  fetch_next_tick_liquidate-Stops true =
      let (a, at_n, index, bytes) =
        loaded_array (n / 2048) (s (n / 2048)) (loaded (n / 2048) (omega arith)) in
      let cleared = store (n / 2048) (cleared_from n a) s in
      let debt = λ (g : ℕ). clear_bits-has_debt s a n g at_n bytes in
      let kept = clear_bits-IsArray a n index bytes in
      let (found, run, stops) =
        search_liquidate-Stops cleared liquidation_tick (n / 2048) (n / 256 % 8) (omega arith)
          (omega arith)
          (λ k le. store-IsArray s (n / 2048) k (cleared_from n a) kept (loaded k le)) in
      let same =
        highest_of_cleared (has_debt s) (has_debt cleared) n (n / 2048) (n / 256 % 8) refl refl
          debt in
      let own_index : (a.index == n / 2048) ≡ true = ground (arith, index) in
      (
        found,
        cleared,
        rw (get_tick_indices-tick_at n in_range, load-some s (n / 2048) a at_n, own_index, run)
            refl,
        rw (← same) stops,
      )
  fetch_next_tick_liquidate-Stops false =
      let (a, at_n, index, bytes) =
        loaded_array (n / 2048) (s (n / 2048)) (loaded (n / 2048) (omega arith)) in
      let (found, run, stops) =
        search_liquidate-Stops s liquidation_tick (n / 2048) (n / 256 % 8) (omega arith)
          (omega arith) loaded in
      let own_index : (a.index == n / 2048) ≡ true = ground (arith, index) in
      (
        found,
        s,
        rw (get_tick_indices-tick_at n in_range, load-some s (n / 2048) a at_n, own_index, run)
            refl,
        stops,
      )
