-- ===== src/Vaults/TickSet.antt =====
-- The set of ticks that the bitmap of `programs/vaults/src/state/tick_has_debt.rs` stands for, by the
-- place of a tick, and the greatest member below a place: the contract of the search for the next
-- tick.
pub mod Highest
pub mod Bits
pub mod Update
pub mod InArray
pub mod Search
pub mod Liquidate
use fluid_solana_programs.Base.{
  ℕ, zero, suc, ◌/◌, ◌%◌, ◌<◌, ◌≡◌, if◌then◌else◌, Bool, true, false, Option, none, some,
}
use fluid_solana_programs.Base.Int.{ℤ}
use fluid_solana_programs.Vaults.TickHasDebt.{TickHasDebtArray, TickHasDebtAccounts}
use fluid_solana_programs.Vaults.TickHasDebt.Indices.{cold_tick}
use fluid_solana_programs.Vaults.TickHasDebt.Bytes.{bit_of}
use fluid_solana_programs.Vaults.TickHasDebt.Places.{tick_at}

-- A place is looked up in its byte.
unfoldable pub array_has : TickHasDebtArray → ℕ → Bool
array_has a g = bit_of (a.children_bits (g / 256 % 8) (g / 8 % 32)) (g % 8)

-- The set of places.
unfoldable pub has_debt : TickHasDebtAccounts → ℕ → Bool
has_debt s g = elim (s (g / 2048)) [ none ↦ false | some a ↦ array_has a g ]

-- The account of array `k`: it is there, knows its index and holds bytes.
unfoldable pub IsArray : ℕ → Option TickHasDebtArray → Type 0
IsArray k none = ⊥
IsArray k (some a) = (a.index ≡ k) × ((m b : ℕ) → a.children_bits m b < 256)

-- The greatest member of a set below a place.
unfoldable pub highest : (ℕ → Bool) → ℕ → Option ℕ
highest p zero = none
highest p (suc n) = let rest = highest p n in if p n then some n else rest

abbrev pub tick_or_cold : Option ℕ → ℤ
tick_or_cold none = cold_tick
tick_or_cold (some g) = tick_at g
