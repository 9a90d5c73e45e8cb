-- ===== src/Vaults/TickSet/Search.antt =====
-- The search for the next tick with debt (`programs/vaults/src/state/tick_has_debt.rs`) finds the
-- greatest member of the set.
use fluid_solana_programs.Base.{
  ℕ, zero, suc, ◌∙◌, ◌+◌, ◌-◌, ◌*◌, ◌/◌, ◌%◌, ◌≤◌, ◌<◌, ◌≡◌, refl, arith, ◌==◌, Bool, true, false,
  ◌&&◌, none, some,
}
use fluid_solana_programs.Base.Int.{ℤ}
use fluid_solana_programs.Base.Result.{Result, ok, ◌>>=◌}
use fluid_solana_programs.Vaults.TickHasDebt.{
  TickHasDebtArray, TickHasDebtAccounts, fetch_in_array, search_arrays, fetch_next_top_tick, load,
  store, clear_bits,
}
use fluid_solana_programs.Vaults.TickHasDebt.Indices.{cold_tick}
use fluid_solana_programs.Vaults.TickHasDebt.Places.{tick_at, last_place, get_tick_indices-tick_at}
use fluid_solana_programs.Vaults.TickSet.{array_has, has_debt, IsArray, highest, tick_or_cold}
use fluid_solana_programs.Vaults.TickSet.Highest.{cong_highest, highest-skip, highest-cong}
use fluid_solana_programs.Vaults.TickSet.Bits.{
  loaded_array, load-some, outside_of_cleared, clear_bits-has_debt, clear_bits-IsArray,
  store-IsArray,
}
use fluid_solana_programs.Vaults.TickSet.InArray.{
  Finds, here, passed, Agrees, first_of_byte, fetch_in_array-Finds,
}

-- The set has the bits of an array that is loaded.
pub has_debt-Agrees :
    (s : TickHasDebtAccounts) (k m : ℕ) (a : TickHasDebtArray)
    → s k ≡ some a
    → m < 8
    → Agrees (has_debt s) a k m
unfolding has_debt array_has
has_debt-Agrees s k m a loaded in_m b g hb lo hi =
    let array : g / 2048 ≡ k = omega arith in
    let map : g / 256 % 8 ≡ m = omega arith in
    let byte : g / 8 % 32 ≡ b = omega arith in
    let bit : g % 8 ≡ g - first_of_byte k m b = omega arith in
    rw (has_debt, array, loaded, array_has, map, byte, bit) refl

pub highest-zero : (p : ℕ → Bool) → highest p 0 ≡ none
unfolding highest
highest-zero p = refl

pub suc_is_not_zero : (i : ℕ) → (suc i == 0) ≡ false
suc_is_not_zero i = ground arith

module _ (s : TickHasDebtAccounts) where
  -- The set is searched in one array that is loaded.
  pub load_and_search :
      (i m : ℕ)
      → i < 16
      → m < 8
      → IsArray i (s i)
      → (a : TickHasDebtArray) × (load s i ≡ ok a)
        × (a.index ≡ i)
        × Finds
            (has_debt s)
            (2048 * i)
            (2048 * i + 256 * m + 256)
            (ok (cold_tick, i == 0))
            (fetch_in_array a m)
  load_and_search i m in_i in_m is_array =
      let (a, loaded, index, bytes) = loaded_array i (s i) is_array in
      (
        a,
        load-some s i a loaded,
        index,
        fetch_in_array-Finds (has_debt s) a i in_i index bytes
            (λ m in_m. has_debt-Agrees s i m a loaded in_m) m in_m,
      )

  search_arrays-highest :
      (i m : ℕ)
      → i < 16
      → m < 8
      → ((k : ℕ) → k ≤ i → IsArray k (s k))
      → search_arrays s i m ≡ ok (tick_or_cold (highest (has_debt s) (2048 * i + 256 * m + 256)))
  unfolding search_arrays
  search_arrays-highest zero m in_i in_m loaded =
      let (a, load_a, _, finds) = load_and_search 0 m in_i in_m (loaded 0 (omega arith)) in
      elim finds [
        | here g at found ↦ rw (load_a, found, at) refl
        | passed below found ↦ rw (load_a, found, below) (rw (highest-zero (has_debt s)) refl)
      ]
  search_arrays-highest (suc i) m in_i in_m loaded =
      let (a, load_a, _, finds) =
        load_and_search (suc i) m in_i in_m (loaded (suc i) (omega arith)) in
      let rest =
        search_arrays-highest i 7 (omega arith) (omega arith) (λ k le. loaded k (omega arith)) in
      let next =
        cong_highest (has_debt s) (2048 * suc i) (2048 * i + 256 * 7 + 256) (omega arith) in
      elim finds [
        | here g at found ↦ rw (load_a, found, at) refl
        | passed below found ↦ rw (load_a, found, below, next, suc_is_not_zero i) rest
      ]

-- A tick with whether a place is in the set of a bitmap.
abbrev pub and_member : ℕ → ℤ × TickHasDebtAccounts → Result (ℤ × Bool)
and_member g (tick, s) = ok (tick, has_debt s g)

abbrev pub cleared_from : ℕ → TickHasDebtArray → TickHasDebtArray
cleared_from n a = clear_bits (n / 256 % 8) (n / 8 % 32) (n % 8) a

-- Without the members from `n` to the end of its map, the greatest member there is the one below `n`.
pub highest_of_cleared :
    (p q : ℕ → Bool) (n i m : ℕ)
    → i ≡ n / 2048
    → m ≡ n / 256 % 8
    → ((g : ℕ) → q g ≡ (p g && outside_of_cleared n g))
    → highest q (2048 * i + 256 * m + 256) ≡ highest p n
highest_of_cleared p q n i m hi hm cleared =
    highest-skip q n (2048 * i + 256 * m + 256) (omega arith) (λ g lo up.
      let c = cleared g in
      let inside : outside_of_cleared n g ≡ false = ground arith in ground (arith, c, inside))
    ∙ highest-cong q p n (λ g lt.
      let c = cleared g in
      let outside : outside_of_cleared n g ≡ true = ground arith in ground (arith, c, outside))

module _ (s : TickHasDebtAccounts) (n : ℕ) (in_range : n ≤ last_place)
    (loaded : (k : ℕ) → k ≤ n / 2048 → IsArray k (s k)) where
  pub fetch_next_top_tick-cleared :
      (a : TickHasDebtArray) × (fetch_next_top_tick (tick_at n) s
        ≡ ok (tick_or_cold (highest (has_debt s) n), store (n / 2048) (cleared_from n a) s))
      × ((g : ℕ)
          → has_debt (store (n / 2048) (cleared_from n a) s) g
            ≡ (has_debt s g && outside_of_cleared n g))
  unfolding fetch_next_top_tick
  fetch_next_top_tick-cleared =
      let (a, at_n, index, bytes) =
        loaded_array (n / 2048) (s (n / 2048)) (loaded (n / 2048) (omega arith)) in
      let cleared = store (n / 2048) (cleared_from n a) s in
      let debt = λ (g : ℕ). clear_bits-has_debt s a n g at_n bytes in
      let kept = clear_bits-IsArray a n index bytes in
      let found =
        search_arrays-highest cleared (n / 2048) (n / 256 % 8) (omega arith) (omega arith)
          (λ k le. store-IsArray s (n / 2048) k (cleared_from n a) kept (loaded k le)) in
      let same =
        highest_of_cleared (has_debt s) (has_debt cleared) n (n / 2048) (n / 256 % 8) refl refl
          debt in
      let own_index : (a.index == n / 2048) ≡ true = ground (arith, index) in
      (
        a,
        rw
            (
              get_tick_indices-tick_at n in_range,
              load-some s (n / 2048) a at_n,
              own_index,
              found,
              same,
            )
            refl,
        debt,
      )

  -- Where the tick is in the range and its array and all lower ones are loaded: the search succeeds, it returns the
  -- greatest tick with debt below the given one (the cold tick where there is none), and it takes the
  -- ticks from the given one to the end of its map, and no other, out of the set.
  pub fetch_next_top_tick-highest :
      (g : ℕ)
      → (fetch_next_top_tick (tick_at n) s >>= and_member g)
        ≡ ok (tick_or_cold (highest (has_debt s) n), has_debt s g && outside_of_cleared n g)
  fetch_next_top_tick-highest g =
      let (a, run, debt) = fetch_next_top_tick-cleared in rw (run, debt g) refl
