-- ===== src/Vaults/TickSet/Update.antt =====
-- `update_tick_has_debt` of `programs/vaults/src/state/tick_has_debt.rs` changes one member of the set of
-- ticks.
use fluid_solana_programs.Base.{
  ℕ, ◌∙◌, ◌/◌, ◌%◌, ◌≤◌, ◌<◌, ◌≡◌, refl, arith, if◌then◌else◌, ◌==◌, Bool, false, ◌&&◌, some, inl,
  inr, Bool-cases,
}
use fluid_solana_programs.Base.Result.{ok, ◌>>=◌}
use fluid_solana_programs.Vaults.TickHasDebt.{
  TickHasDebtArray, TickHasDebtAccounts, update_array, update_tick_has_debt, store, store_byte,
}
use fluid_solana_programs.Vaults.TickHasDebt.Bytes.{
  bit_of, set_bit, clear_bit, set_bit-bits, clear_bit-bits,
}
use fluid_solana_programs.Vaults.TickHasDebt.Places.{
  tick_at, last_place, get_array_index_for_tick-tick_at, get_tick_indices_for_array-tick_at,
}
use fluid_solana_programs.Vaults.TickSet.{array_has, has_debt, IsArray}
use fluid_solana_programs.Vaults.TickSet.Bits.{
  loaded_array, load-some, store-has_debt, has_debt-loaded, store-IsArray,
}

-- The byte that `update_tick_has_debt` writes.
abbrev updated_byte : Bool → ℕ → TickHasDebtArray → ℕ
updated_byte add n a =
    let byte = a.children_bits (n / 256 % 8) (n / 8 % 32) in
    if add then set_bit byte (n % 8) else clear_bit byte (n % 8)

abbrev updated_array : Bool → ℕ → TickHasDebtArray → TickHasDebtArray
updated_array add n a = store_byte (n / 256 % 8) (n / 8 % 32) (updated_byte add n a) a

update_array-tick_at :
    (n : ℕ) (add : Bool) (a : TickHasDebtArray)
    → n ≤ last_place
    → a.index ≡ n / 2048
    → update_array (tick_at n) add a ≡ ok (updated_array add n a)
unfolding update_array
update_array-tick_at n add a h index = rw (index, get_tick_indices_for_array-tick_at n h) refl

updated_byte-bits :
    (n j : ℕ) (add : Bool) (a : TickHasDebtArray)
    → ((m b : ℕ) → a.children_bits m b < 256)
    → j < 8
    → (bit_of (updated_byte add n a) j
        ≡ (if n % 8 == j then add else bit_of (a.children_bits (n / 256 % 8) (n / 8 % 32)) j))
      × (updated_byte add n a < 256)
updated_byte-bits n j add a bytes hj =
    let x = a.children_bits (n / 256 % 8) (n / 8 % 32) in
    let in_byte = bytes (n / 256 % 8) (n / 8 % 32) in
    let set = set_bit-bits x (n % 8) j in_byte (omega arith) hj in
    let clear = clear_bit-bits x (n % 8) j in_byte (omega arith) hj in ground arith

same_place :
    (n g : ℕ)
    → g / 2048 ≡ n / 2048
    → (g / 256 % 8 == n / 256 % 8 && g / 8 % 32 == n / 8 % 32 && n % 8 == g % 8) ≡ (g == n)
same_place n g same = ground arith

updated_array-bits :
    (n g : ℕ) (add : Bool) (a : TickHasDebtArray)
    → ((m b : ℕ) → a.children_bits m b < 256)
    → g / 2048 ≡ n / 2048
    → array_has (updated_array add n a) g ≡ (if g == n then add else array_has a g)
unfolding array_has
updated_array-bits n g add a bytes same =
    let (bits, _) = updated_byte-bits n (g % 8) add a bytes (omega arith) in
    let place = same_place n g same in
    elim (Bool-cases (g / 256 % 8 == n / 256 % 8 && g / 8 % 32 == n / 8 % 32)) [
      | inl hit ↦
          let map : g / 256 % 8 ≡ n / 256 % 8 = ground (arith, hit) in
          let byte : g / 8 % 32 ≡ n / 8 % 32 = ground (arith, hit) in
          let bit : (g == n) ≡ (n % 8 == g % 8) = ground (arith, hit, place) in
          rw (array_has, hit, bit, map, byte) bits
      | inr miss ↦
          let apart : (g == n) ≡ false = ground (arith, miss, place) in
          rw (array_has, miss, apart) refl
    ]

-- The set after the update has or does not have the place, and is otherwise as it was.
updated-has_debt :
    (s : TickHasDebtAccounts) (a : TickHasDebtArray) (add : Bool) (n g : ℕ)
    → s (n / 2048) ≡ some a
    → ((m b : ℕ) → a.children_bits m b < 256)
    → has_debt (store (n / 2048) (updated_array add n a) s) g
      ≡ (if g == n then add else has_debt s g)
updated-has_debt s a add n g loaded bytes =
    store-has_debt s (n / 2048) g (updated_array add n a)
    ∙ elim (Bool-cases (g / 2048 == n / 2048)) [
      | inl hit ↦
          let same : g / 2048 ≡ n / 2048 = ground (arith, hit) in
          rw (hit, has_debt-loaded s a g (rw same loaded)) (updated_array-bits n g add a bytes same)
      | inr miss ↦ let apart : (g == n) ≡ false = ground (arith, miss) in rw (miss, apart) refl
    ]

update_tick_has_debt-stored :
    (s : TickHasDebtAccounts) (a : TickHasDebtArray) (add : Bool) (n : ℕ)
    → n ≤ last_place
    → s (n / 2048) ≡ some a
    → a.index ≡ n / 2048
    → update_tick_has_debt (tick_at n) add s ≡ ok (store (n / 2048) (updated_array add n a) s)
unfolding update_tick_has_debt
update_tick_has_debt-stored s a add n h loaded index =
    rw
      (
        get_array_index_for_tick-tick_at n h,
        load-some s (n / 2048) a loaded,
        update_array-tick_at n add a h index,
      )
      refl

updated-IsArray :
    (a : TickHasDebtArray) (add : Bool) (n : ℕ)
    → a.index ≡ n / 2048
    → ((m b : ℕ) → a.children_bits m b < 256)
    → IsArray (n / 2048) (some (updated_array add n a))
unfolding IsArray
updated-IsArray a add n index bytes = (
  index,
  λ m b.
      let (_, written) = updated_byte-bits n 0 add a bytes (omega arith) in
      let kept = bytes m b in
      elim (Bool-cases (m == n / 256 % 8 && b == n / 8 % 32)) [
        | inl hit ↦ rw hit written
        | inr miss ↦ rw miss kept
      ],
)

-- Where the tick is in the range and its array is loaded: `update_tick_has_debt` succeeds, the set of ticks afterwards
-- has the tick exactly where it was added, and no other member changed.
pub update_tick_has_debt-members :
    (s : TickHasDebtAccounts) (add : Bool) (n g : ℕ)
    → n ≤ last_place
    → IsArray (n / 2048) (s (n / 2048))
    → (update_tick_has_debt (tick_at n) add s >>= λ updated. ok (has_debt updated g))
      ≡ ok (if g == n then add else has_debt s g)
update_tick_has_debt-members s add n g h is_array =
    let (a, loaded, index, bytes) = loaded_array (n / 2048) (s (n / 2048)) is_array in
    rw
      (
        update_tick_has_debt-stored s a add n h loaded index,
        updated-has_debt s a add n g loaded bytes,
      )
      refl

-- `update_tick_has_debt` keeps every array well-formed: its index and its bytes.
pub update_tick_has_debt-IsArray :
    (s updated : TickHasDebtAccounts) (add : Bool) (n k : ℕ)
    → n ≤ last_place
    → IsArray (n / 2048) (s (n / 2048))
    → IsArray k (s k)
    → update_tick_has_debt (tick_at n) add s ≡ ok updated
    → IsArray k (updated k)
update_tick_has_debt-IsArray s updated add n k h is_array at_k run =
    let (a, loaded, index, bytes) = loaded_array (n / 2048) (s (n / 2048)) is_array in
    let stored = update_tick_has_debt-stored s a add n h loaded index in
    let eq : updated ≡ store (n / 2048) (updated_array add n a) s = cc in
    rw eq (
      store-IsArray s (n / 2048) k (updated_array add n a) (updated-IsArray a add n index bytes)
        at_k)
