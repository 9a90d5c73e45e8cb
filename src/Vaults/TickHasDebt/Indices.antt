-- ===== src/Vaults/TickHasDebt/Indices.antt =====
-- The place of a tick in the bitmap: `get_tick_indices` and the functions beside it in
-- `programs/vaults/src/state/tick_has_debt.rs`. Ticks are i32.
use fluid_solana_programs.Base.{ℕ, ◌-◌, ◌*◌, ◌%◌, leb, ◌==◌, ◌||◌, not}
use fluid_solana_programs.Base.Int.{ℤ, pos, negsuc, ltb_ℤ, tdiv, trem}
use fluid_solana_programs.Base.Errors.{
  vault, vault_tick_has_debt_out_of_range, vault_tick_has_debt_index_mismatch,
}
use fluid_solana_programs.Base.Result.{Result, ok, ◌>>=◌, ◌>>◌, fail_if}
use fluid_solana_programs.Math.Words.{i32_max, u8_max}
use fluid_solana_programs.Math.Casting.{cast_to_unsigned}
use fluid_solana_programs.Math.Signed

-- `TickMath::MIN_TICK`, `MAX_TICK` and `COLD_TICK` (`i32::MIN`).
abbrev pub min_tick : ℤ
min_tick = negsuc 16382

abbrev pub max_tick : ℤ
max_tick = pos 16383

abbrev pub cold_tick : ℤ
cold_tick = negsuc i32_max

abbrev pub tick_has_debt_array_size : ℕ
tick_has_debt_array_size = 8

abbrev pub tick_has_debt_children_size : ℕ
tick_has_debt_children_size = 32

abbrev pub bit_per_byte : ℕ
bit_per_byte = 8

abbrev pub tick_has_debt_children_size_in_bits : ℕ
tick_has_debt_children_size_in_bits = tick_has_debt_children_size * bit_per_byte

abbrev pub ticks_per_tick_has_debt : ℕ
ticks_per_tick_has_debt = tick_has_debt_array_size * tick_has_debt_children_size_in_bits

abbrev pub total_indices_needed : ℕ
total_indices_needed = 16

-- `a as u8`
abbrev pub as_u8 : ℤ → ℕ
as_u8 (pos n) = n % 256
as_u8 (negsuc n) = 255 - n % 256

unfoldable pub get_array_index_for_tick : ℤ → Result ℕ
unfolding tdiv
get_array_index_for_tick tick = do
  fail_if (ltb_ℤ tick min_tick || ltb_ℤ max_tick tick) (vault vault_tick_has_debt_out_of_range)
  tick_offset ← Signed.safe_sub i32_max tick min_tick
  ok (as_u8 (tdiv tick_offset (pos ticks_per_tick_has_debt)))

unfoldable pub get_first_tick_for_array_index : ℕ → Result ℤ
get_first_tick_for_array_index index = do
  fail_if (leb total_indices_needed index) (vault vault_tick_has_debt_out_of_range)
  first ← Signed.safe_mul i32_max (pos index) (pos ticks_per_tick_has_debt)
  Signed.safe_add i32_max min_tick first

unfoldable pub get_first_tick_for_map_in_array : ℕ → ℕ → Result ℤ
get_first_tick_for_map_in_array array_index map_index = do
  fail_if (leb total_indices_needed array_index || leb tick_has_debt_array_size map_index)
      (vault vault_tick_has_debt_out_of_range)
  array_first_tick ← get_first_tick_for_array_index array_index
  first ← Signed.safe_mul i32_max (pos map_index) (pos tick_has_debt_children_size_in_bits)
  Signed.safe_add i32_max array_first_tick first

-- The map, the byte and the bit.
unfoldable pub get_tick_indices_for_array : ℤ → ℕ → Result (ℕ × ℕ × ℕ)
unfolding tdiv trem
get_tick_indices_for_array tick array_index = do
  fail_if (ltb_ℤ tick min_tick || ltb_ℤ max_tick tick) (vault vault_tick_has_debt_out_of_range)
  expected_index ← get_array_index_for_tick tick
  fail_if (not (expected_index == array_index)) (vault vault_tick_has_debt_index_mismatch)
  first_tick_for_index ← get_first_tick_for_array_index array_index
  tick_within_array ← Signed.safe_sub i32_max tick first_tick_for_index
  fail_if (not (ltb_ℤ tick_within_array (pos ticks_per_tick_has_debt)))
      (vault vault_tick_has_debt_out_of_range)
  let tick_within_map = trem tick_within_array (pos tick_has_debt_children_size_in_bits)
  map_index ←
      cast_to_unsigned u8_max (tdiv tick_within_array (pos tick_has_debt_children_size_in_bits))
  byte_index ← cast_to_unsigned u8_max (tdiv tick_within_map (pos bit_per_byte))
  bit_index ← cast_to_unsigned u8_max (trem tick_within_map (pos bit_per_byte))
  ok (map_index, byte_index, bit_index)

-- The array, the map, the byte and the bit.
unfoldable pub get_tick_indices : ℤ → Result (ℕ × ℕ × ℕ × ℕ)
get_tick_indices tick = do
  array_index ← get_array_index_for_tick tick
  (map_index, byte_index, bit_index) ← get_tick_indices_for_array tick array_index
  ok (array_index, map_index, byte_index, bit_index)
