-- ===== src/Vaults/TickSet/Bits.antt =====
-- What the writes of `programs/vaults/src/state/tick_has_debt.rs` to the bitmap do to the set of ticks.
use fluid_solana_programs.Base.{
  ℕ, suc, ◌∙◌, ◌*◌, ◌/◌, ◌%◌, ◌<◌, ◌≡◌, refl, arith, if◌then◌else◌, ◌==◌, Bool, true, not, ◌&&◌,
  ◌||◌, Option, none, some, ltb, leb, inl, inr, Bool-cases,
}
use fluid_solana_programs.Base.Result.{ok}
use fluid_solana_programs.Vaults.TickHasDebt.{
  TickHasDebtArray, TickHasDebtAccounts, load, store, clear_bits,
}
use fluid_solana_programs.Vaults.TickHasDebt.Bytes.{bit_of, keep_lower, keep_lower-bits, zero_byte}
use fluid_solana_programs.Vaults.TickSet.{array_has, has_debt, IsArray}

pub loaded_array :
    (k : ℕ) (account : Option TickHasDebtArray)
    → IsArray k account
    → (a : TickHasDebtArray) × (account ≡ some a)
      × (a.index ≡ k)
      × ((m b : ℕ) → a.children_bits m b < 256)
unfolding IsArray
loaded_array k none missing = absurd missing
loaded_array k (some a) (index, bytes) = (a, refl, index, bytes)

pub load-some :
    (s : TickHasDebtAccounts) (i : ℕ) (a : TickHasDebtArray) → s i ≡ some a → load s i ≡ ok a
load-some s i a loaded = rw (load, loaded) refl

pub has_debt-loaded :
    (s : TickHasDebtAccounts) (a : TickHasDebtArray) (g : ℕ)
    → s (g / 2048) ≡ some a
    → has_debt s g ≡ array_has a g
unfolding has_debt
has_debt-loaded s a g loaded = rw (has_debt, loaded) refl

-- A store of one array changes the members of that array only.
pub store-has_debt :
    (s : TickHasDebtAccounts) (i g : ℕ) (a : TickHasDebtArray)
    → has_debt (store i a s) g ≡ (if g / 2048 == i then array_has a g else has_debt s g)
unfolding has_debt
store-has_debt s i g a = elim (Bool-cases (g / 2048 == i)) [
  | inl hit ↦ rw (has_debt, hit) refl
  | inr miss ↦ rw (has_debt, miss) refl
]

abbrev keep_low : ℕ → ℕ → ℕ
keep_low x i = if ltb 0 i then keep_lower x i else 0

keep_low-bits :
    (x i j : ℕ) → x < 256 → i < 8 → j < 8 → bit_of (keep_low x i) j ≡ (bit_of x j && ltb j i)
keep_low-bits x i j hx hi hj = ground (arith, keep_lower-bits x i j hx hi hj, zero_byte j hj)

-- The places of a map from `n` on.
abbrev pub outside_of_cleared : ℕ → ℕ → Bool
outside_of_cleared n g = ltb g n || leb (256 * suc (n / 256)) g

abbrev below_in_map : (m m' b b' j j' : ℕ) → Bool
below_in_map m m' b b' j j' = not (m == m') || (ltb b b' || (b == b' && ltb j j'))

-- A byte of the map that is cleared, or of another one.
cleared_byte :
    (x m m' b b' j j' : ℕ)
    → x < 256
    → j < 8
    → j' < 8
    → bit_of (if not (m == m') || ltb b b' then x else if ltb b' b then 0 else keep_low x j') j
      ≡ (bit_of x j && below_in_map m m' b b' j j')
cleared_byte x m m' b b' j j' hx hj hj' =
    let low = keep_low-bits x j' j hx hj' hj in let zeros = zero_byte j hj in ground arith

places_order :
    (n g : ℕ)
    → g / 2048 ≡ n / 2048
    → below_in_map (g / 256 % 8) (n / 256 % 8) (g / 8 % 32) (n / 8 % 32) (g % 8) (n % 8)
      ≡ outside_of_cleared n g
places_order n g same = ground arith

module _ (a : TickHasDebtArray) (n g : ℕ) (bytes : (m b : ℕ) → a.children_bits m b < 256) where
  clear_bits-bits :
      g / 2048 ≡ n / 2048
      → array_has (clear_bits (n / 256 % 8) (n / 8 % 32) (n % 8) a) g
        ≡ (array_has a g && outside_of_cleared n g)
  unfolding array_has clear_bits
  clear_bits-bits same_array =
      cleared_byte (a.children_bits (g / 256 % 8) (g / 8 % 32)) (g / 256 % 8) (n / 256 % 8)
        (g / 8 % 32) (n / 8 % 32) (g % 8) (n % 8) (bytes (g / 256 % 8) (g / 8 % 32)) (omega arith)
        (omega arith)
      ∙ rw (places_order n g same_array) refl

-- `clear_bits` takes the members from `n` to the end of its map out of the set.
pub clear_bits-has_debt :
    (s : TickHasDebtAccounts) (a : TickHasDebtArray) (n g : ℕ)
    → s (n / 2048) ≡ some a
    → ((m b : ℕ) → a.children_bits m b < 256)
    → has_debt (store (n / 2048) (clear_bits (n / 256 % 8) (n / 8 % 32) (n % 8) a) s) g
      ≡ (has_debt s g && outside_of_cleared n g)
clear_bits-has_debt s a n g loaded bytes =
    store-has_debt s (n / 2048) g (clear_bits (n / 256 % 8) (n / 8 % 32) (n % 8) a)
    ∙ elim (Bool-cases (g / 2048 == n / 2048)) [
      | inl hit ↦
          let same : g / 2048 ≡ n / 2048 = ground (arith, hit) in
          rw hit
            (clear_bits-bits a n g bytes same ∙ rw (has_debt-loaded s a g (rw same loaded)) refl)
      | inr miss ↦
          let outside : outside_of_cleared n g ≡ true = ground (arith, miss) in
          rw (miss, outside) (ground arith)
    ]

pub store-IsArray :
    (s : TickHasDebtAccounts) (i k : ℕ) (a : TickHasDebtArray)
    → IsArray i (some a)
    → IsArray k (s k)
    → IsArray k (store i a s k)
store-IsArray s i k a at_i at_k = elim (Bool-cases (k == i)) [
  | inl hit ↦ let same : k ≡ i = ground (arith, hit) in rw (store, hit) (rw same at_i)
  | inr miss ↦ rw (store, miss) at_k
]

pub clear_bits-IsArray :
    (a : TickHasDebtArray) (n : ℕ)
    → a.index ≡ n / 2048
    → ((m b : ℕ) → a.children_bits m b < 256)
    → IsArray (n / 2048) (some (clear_bits (n / 256 % 8) (n / 8 % 32) (n % 8) a))
unfolding IsArray clear_bits
clear_bits-IsArray a n index bytes = (
  index,
  λ m b.
      let kept = bytes m b in
      let (_, low) =
        keep_lower-bits (a.children_bits m b) (n % 8) 0 kept (omega arith) (omega arith) in
      ground arith,
)
