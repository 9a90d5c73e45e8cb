-- ===== src/Vaults/TickHasDebt.antt =====
-- `programs/vaults/src/state/tick_has_debt.rs`: the bitmap of the ticks that have debt, and the search
-- for the next tick below. The arrays of fixed size are functions of the index, and the accounts of
-- the instruction are a function from the index of an array to the array, as the `HashMap` of
-- `TickHasDebtAccounts` gives it.
pub mod Indices
pub mod Places
pub mod Bytes
use fluid_solana_programs.Base.{
  ℕ, zero, suc, ◌+◌, ◌-◌, ◌*◌, ◌<◌, ltb, leb, ◌==◌, if◌then◌else◌, Bool, true, false, not, ◌&&◌,
  ◌||◌, Option, none, some, List, [], ◌∷◌,
}
use fluid_solana_programs.Base.Int.{ℤ, pos, ◌+ℤ◌, ltb_ℤ}
use fluid_solana_programs.Base.Errors.{
  panic, vault, vault_tick_has_debt_index_mismatch, vault_tick_has_debt_not_found,
  vault_tick_has_debt_vault_id_mismatch,
}
use fluid_solana_programs.Base.Result.{Result, ok, err, ◌>>=◌, ◌>>◌, fail_if}
use fluid_solana_programs.Math.Words.{i32_max}
use fluid_solana_programs.Math.Signed
use fluid_solana_programs.Vaults.TickHasDebt.Indices.{
  cold_tick, tick_has_debt_array_size, tick_has_debt_children_size, bit_per_byte,
  get_array_index_for_tick, get_first_tick_for_map_in_array, get_tick_indices_for_array,
  get_tick_indices,
}
use fluid_solana_programs.Vaults.TickHasDebt.Bytes.{
  set_bit, clear_bit, keep_lower, leading_zeros_u8,
}

-- Byte `b` of map `m` is `children_bits m b`.
pub record TickHasDebtArray : Type 0 where
  pub vault_id : ℕ
  pub index : ℕ
  pub children_bits : ℕ → ℕ → ℕ

abbrev pub store_byte : ℕ → ℕ → ℕ → TickHasDebtArray → TickHasDebtArray
store_byte m b byte a = record a {
  children_bits = λ i j. if i == m && j == b then byte else a.children_bits i j;
}

unfoldable pub any_byte : (ℕ → ℕ) → ℕ → Bool
any_byte bytes zero = false
any_byte bytes (suc n) = not (bytes n == 0) || any_byte bytes n

unfoldable pub has_bits : TickHasDebtArray → ℕ → Bool
has_bits a map_id = any_byte (a.children_bits map_id) tick_has_debt_children_size

-- `update_tick_has_debt` of one array.
unfoldable pub update_array : ℤ → Bool → TickHasDebtArray → Result TickHasDebtArray
update_array tick add_or_remove a = do
  (map_index, byte_index, bit_index) ← get_tick_indices_for_array tick a.index
  let byte = a.children_bits map_index byte_index
  ok (
      store_byte map_index byte_index
        (if add_or_remove then set_bit byte bit_index else clear_bit byte bit_index) a)

-- The tick's bit and all higher bits of its map are cleared.
unfoldable pub clear_bits : ℕ → ℕ → ℕ → TickHasDebtArray → TickHasDebtArray
clear_bits map_index byte_index bit_index a = record a {
  children_bits = λ i j.
      if not (i == map_index) || ltb j byte_index
      then a.children_bits i j
      else if ltb byte_index j
      then 0
      else if ltb 0 bit_index
      then keep_lower (a.children_bits i j) bit_index
      else 0;
}

unfoldable pub clear_bits_for_tick : ℤ → TickHasDebtArray → Result TickHasDebtArray
clear_bits_for_tick tick a = do
  (_, map_index, byte_index, bit_index) ← get_tick_indices tick
  ok (clear_bits map_index byte_index bit_index a)

-- `a + b` on i32.
abbrev pub add_i32 : ℤ → ℤ → Result ℤ
add_i32 a b = if Signed.in_range i32_max (a +ℤ b) then ok (a +ℤ b) else err panic

-- The highest tick of a byte with a bit.
unfoldable pub tick_of_byte : TickHasDebtArray → ℕ → ℕ → Result (ℤ × Bool)
unfolding ◌+ℤ◌
tick_of_byte a map_index byte_idx = do
  let bit_pos = 7 - leading_zeros_u8 (a.children_bits map_index byte_idx)
  map_first_tick ← get_first_tick_for_map_in_array a.index map_index
  tick ← add_i32 map_first_tick (pos (byte_idx * bit_per_byte + bit_pos))
  ok (tick, true)

-- `for byte_idx in (0..n).rev()`
unfoldable pub next_tick_below : TickHasDebtArray → ℕ → ℕ → Result (ℤ × Bool)
next_tick_below a map_index zero = ok (cold_tick, false)
next_tick_below a map_index (suc n) =
    let rest = next_tick_below a map_index n in
    if a.children_bits map_index n == 0 then rest else tick_of_byte a map_index n

unfoldable pub get_next_tick : TickHasDebtArray → ℕ → Result (ℤ × Bool)
get_next_tick a map_index = next_tick_below a map_index tick_has_debt_children_size

-- The tick of a map where it has one, else `lower`.
unfoldable pub or_lower : TickHasDebtArray → ℕ → Result (ℤ × Bool) → Result (ℤ × Bool)
or_lower a map_index lower =
    if has_bits a map_index
    then (do
      (next_tick, has_next_tick) ← get_next_tick a map_index
      if has_next_tick then ok (next_tick, true) else lower)
    else lower

-- `fetch_next_top_tick` of one array: the loop over the maps, downwards.
unfoldable pub fetch_in_array : TickHasDebtArray → ℕ → Result (ℤ × Bool)
fetch_in_array a zero = or_lower a 0 (ok (cold_tick, a.index == 0))
fetch_in_array a (suc map_index) = or_lower a (suc map_index) (fetch_in_array a map_index)

abbrev pub TickHasDebtAccounts : Type 0
TickHasDebtAccounts = ℕ → Option TickHasDebtArray

abbrev pub load : TickHasDebtAccounts → ℕ → Result TickHasDebtArray
load s index = elim (s index) [ none ↦ err (vault vault_tick_has_debt_not_found) | some a ↦ ok a ]

abbrev pub store : ℕ → TickHasDebtArray → TickHasDebtAccounts → TickHasDebtAccounts
store index a s i = if i == index then some a else s i

-- `get_tick_has_debt_indices`: the last array with an index is the one that is found.
unfoldable pub get_tick_has_debt_indices : ℕ → List TickHasDebtArray → Result TickHasDebtAccounts
get_tick_has_debt_indices vault_id [] = ok (λ i. none)
get_tick_has_debt_indices vault_id (a ∷ rest) = do
  fail_if (not (a.vault_id == vault_id)) (vault vault_tick_has_debt_vault_id_mismatch)
  later ← get_tick_has_debt_indices vault_id rest
  ok (λ i. elim (later i) [ none ↦ if i == a.index then some a else none | some b ↦ some b ])

unfoldable pub update_tick_has_debt : ℤ → Bool → TickHasDebtAccounts → Result TickHasDebtAccounts
update_tick_has_debt tick add_or_remove s = do
  array_index ← get_array_index_for_tick tick
  a ← load s array_index
  updated ← update_array tick add_or_remove a
  ok (store array_index updated s)

-- The loop over the arrays, downwards; below the first one `array_index -= 1` panics.
unfoldable pub search_arrays : TickHasDebtAccounts → ℕ → ℕ → Result ℤ
search_arrays s zero map_index = do
  a ← load s 0
  (next_tick, has_next_tick) ← fetch_in_array a map_index
  if has_next_tick then ok next_tick else err panic
search_arrays s (suc array_index) map_index = do
  a ← load s (suc array_index)
  (next_tick, has_next_tick) ← fetch_in_array a map_index
  let rest = search_arrays s array_index (tick_has_debt_array_size - 1)
  if has_next_tick then ok next_tick else rest

-- The next tick with debt below `top_tick`; the bits from `top_tick` on, in its map, are cleared.
unfoldable pub fetch_next_top_tick : ℤ → TickHasDebtAccounts → Result (ℤ × TickHasDebtAccounts)
fetch_next_top_tick top_tick s = do
  (array_index, map_index, byte_index, bit_index) ← get_tick_indices top_tick
  a ← load s array_index
  fail_if (not (a.index == array_index)) (vault vault_tick_has_debt_index_mismatch)
  let cleared = store array_index (clear_bits map_index byte_index bit_index a) s
  next_tick ← search_arrays cleared array_index map_index
  ok (next_tick, cleared)

-- What `fetch_next_tick_liquidate` does with the outcome of one array: the loop also ends where the
-- map it began with in that array begins below the liquidation threshold.
unfoldable pub or_below_threshold : TickHasDebtArray → ℤ → ℕ → Result ℤ → Result ℤ
or_below_threshold a liquidation_tick map_index lower = do
  (next_tick, has_next_tick) ← fetch_in_array a map_index
  if has_next_tick then ok next_tick else (do
    first ← get_first_tick_for_map_in_array a.index map_index
    if ltb_ℤ first liquidation_tick then ok cold_tick else lower)

-- The loop of `fetch_next_tick_liquidate`.
unfoldable pub search_liquidate : TickHasDebtAccounts → ℤ → ℕ → ℕ → Result ℤ
search_liquidate s liquidation_tick zero map_index = do
  a ← load s 0
  or_below_threshold a liquidation_tick map_index (err panic)
search_liquidate s liquidation_tick (suc array_index) map_index = do
  a ← load s (suc array_index)
  or_below_threshold a liquidation_tick map_index
      (search_liquidate s liquidation_tick array_index (tick_has_debt_array_size - 1))

unfoldable pub fetch_next_tick_liquidate :
    ℤ → ℤ → Bool → TickHasDebtAccounts → Result (ℤ × TickHasDebtAccounts)
fetch_next_tick_liquidate current_tick liquidation_tick clear s = do
  (array_index, map_index, byte_index, bit_index) ← get_tick_indices current_tick
  a ← load s array_index
  fail_if (not (a.index == array_index)) (vault vault_tick_has_debt_index_mismatch)
  let cleared =
      if clear then store array_index (clear_bits map_index byte_index bit_index a) s else s
  next_tick ← search_liquidate cleared liquidation_tick array_index map_index
  ok (next_tick, cleared)
