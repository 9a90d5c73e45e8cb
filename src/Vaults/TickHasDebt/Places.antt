-- ===== src/Vaults/TickHasDebt/Places.antt =====
-- Every tick has one place in the bitmap (`programs/vaults/src/state/tick_has_debt.rs`).
use fluid_solana_programs.Base.{ℕ, ◌+◌, ◌*◌, ◌/◌, ◌%◌, ◌≤◌, ◌<◌, ◌≡◌, arith}
use fluid_solana_programs.Base.Int.{ℤ, pos, sub_ℕ}
use fluid_solana_programs.Base.Result.{ok}
use fluid_solana_programs.Math.Casting.{cast_to_unsigned}
use fluid_solana_programs.Math.Signed
use fluid_solana_programs.Vaults.TickHasDebt.Indices.{
  get_array_index_for_tick, get_first_tick_for_array_index, get_first_tick_for_map_in_array,
  get_tick_indices_for_array, get_tick_indices,
}

-- The tick at a place of the bitmap, counted from 0 for the least tick.
abbrev pub tick_at : ℕ → ℤ
tick_at n = sub_ℕ n 16383

-- The last place: that of the greatest tick.
abbrev pub last_place : ℕ
last_place = 32766

pub get_array_index_for_tick-tick_at :
    (n : ℕ) → n ≤ last_place → get_array_index_for_tick (tick_at n) ≡ ok (n / 2048)
unfolding get_array_index_for_tick Signed.safe_sub
get_array_index_for_tick-tick_at n h = ground arith

pub first_tick_of_array :
    (i : ℕ) → i < 16 → get_first_tick_for_array_index i ≡ ok (tick_at (2048 * i))
unfolding get_first_tick_for_array_index Signed.safe_mul Signed.safe_add
first_tick_of_array i h = ground arith

pub first_tick_of_map :
    (i m : ℕ)
    → i < 16
    → m < 8
    → get_first_tick_for_map_in_array i m ≡ ok (tick_at (2048 * i + 256 * m))
unfolding get_first_tick_for_map_in_array Signed.safe_mul Signed.safe_add
first_tick_of_map i m h k = rw (first_tick_of_array i h) (ground arith)

within_array :
    (n : ℕ)
    → n ≤ last_place
    → Signed.safe_sub 2147483647 (tick_at n) (tick_at (2048 * (n / 2048))) ≡ ok (pos (n % 2048))
unfolding Signed.safe_sub
within_array n h = ground arith

pub get_tick_indices_for_array-tick_at :
    (n : ℕ)
    → n ≤ last_place
    → get_tick_indices_for_array (tick_at n) (n / 2048) ≡ ok (n / 256 % 8, n / 8 % 32, n % 8)
unfolding get_tick_indices_for_array cast_to_unsigned
get_tick_indices_for_array-tick_at n h =
    rw
      (
        get_array_index_for_tick-tick_at n h,
        first_tick_of_array (n / 2048) (omega arith),
        within_array n h,
      )
      (ground arith)

-- The place of every tick of the range is its offset from the least tick, read in base 8 · 256, 256
-- and 8.
pub get_tick_indices-tick_at :
    (n : ℕ)
    → n ≤ last_place
    → get_tick_indices (tick_at n) ≡ ok (n / 2048, n / 256 % 8, n / 8 % 32, n % 8)
unfolding get_tick_indices
get_tick_indices-tick_at n h =
    rw (get_array_index_for_tick-tick_at n h, get_tick_indices_for_array-tick_at n h)
