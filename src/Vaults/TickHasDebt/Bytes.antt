-- ===== src/Vaults/TickHasDebt/Bytes.antt =====
-- The bits of a byte, and what the masks of `programs/vaults/src/state/tick_has_debt.rs` do to them:
-- every byte, bit and mask is checked by evaluation.
use native.Mathlib.Decide.{dec_le}
use Prim.Native.Nat.{bit_and, bit_or}
use fluid_solana_programs.Base.{
  if◌then◌else◌, ℕ, zero, suc, ◌-◌, ◌/◌, ◌%◌, ◌^◌, ◌≤◌, ◌<◌, ◌≡◌, ◌≢◌, refl, arith, ltb, leb, ◌==◌,
  Bool, true, false, not, ◌&&◌, ◌||◌, ◌⊎◌,
}
use fluid_solana_programs.Math.U256.Shift.{zeros_above}

-- `u8::leading_zeros`
unfoldable pub leading_zeros_u8 : ℕ → ℕ
unfolding zeros_above
leading_zeros_u8 b = zeros_above 8 b

-- `*byte |= 1 << bit`
unfoldable pub set_bit : ℕ → ℕ → ℕ
set_bit b bit = bit_or b (2 ^ bit)

-- `*byte &= !(1 << bit)`
unfoldable pub clear_bit : ℕ → ℕ → ℕ
clear_bit b bit = bit_and b (255 - 2 ^ bit)

-- `byte &= (1 << bit) - 1`
unfoldable pub keep_lower : ℕ → ℕ → ℕ
keep_lower b bit = bit_and b (2 ^ bit - 1)

-- Bit `j` of a byte.
unfoldable pub bit_of : ℕ → ℕ → Bool
bit_of b j = b / 2 ^ j % 2 == 1

-- A test passes at `bound - 1`, and at every smaller number.
passes_under : (test : ℕ → Bool) → ℕ → Bool
passes_under test zero = true
passes_under test (suc bound) =
    let smaller = passes_under test bound in if test bound then smaller else false

last_and_smaller : (b c : Bool) → (if b then c else false) ≡ true → (b ≡ true) × (c ≡ true)
last_and_smaller b c h = ground (arith, h)

same_test : (test : ℕ → Bool) (m k : ℕ) → m ≡ k → test m ≡ true → test k ≡ true
same_test test m k eq h = cc

passes_under-lt :
    (test : ℕ → Bool) (bound : ℕ)
    → passes_under test bound ≡ true
    → (k : ℕ) → k < bound
    → test k ≡ true
unfolding passes_under
passes_under-lt test zero passed k under = absurd (omega arith)
passes_under-lt test (suc bound) passed k under =
    let (last, smaller) = last_and_smaller (test bound) (passes_under test bound) passed in
    elim (dec_le bound k) [
      | yes top ↦ same_test test bound k (omega arith) last
      | no below ↦ passes_under-lt test bound smaller k (omega arith)
    ]

-- A test of every byte, mask and bit.
abbrev every : (ℕ → ℕ → ℕ → Bool) → Bool
every p = passes_under (λ b. passes_under (λ i. passes_under (λ j. p b i j) 8) 8) 256

every_sound :
    (p : ℕ → ℕ → ℕ → Bool) (b i j : ℕ) → every p ≡ true → b < 256 → i < 8 → j < 8 → p b i j ≡ true
every_sound p b i j h hb hi hj =
    let at_b =
      passes_under-lt (λ b. passes_under (λ i. passes_under (λ j. p b i j) 8) 8) 256 h b hb in
    let at_i = passes_under-lt (λ i. passes_under (λ j. p b i j) 8) 8 at_b i hi in
    passes_under-lt (λ j. p b i j) 8 at_i j hj

abbrev bool_eq : Bool → Bool → Bool
bool_eq true c = c
bool_eq false c = not c

bool_eq_sound : (b c : Bool) → bool_eq b c ≡ true → b ≡ c
bool_eq_sound true c h = cc
bool_eq_sound false true h = cc
bool_eq_sound false false h = refl

abbrev set_test : ℕ → ℕ → ℕ → Bool
set_test b i j = bool_eq (bit_of (set_bit b i) j) (bit_of b j || i == j) && ltb (set_bit b i) 256

set_table : every set_test ≡ true
unfolding passes_under bit_of set_bit
set_table = refl

abbrev clear_test : ℕ → ℕ → ℕ → Bool
clear_test b i j =
    bool_eq (bit_of (clear_bit b i) j) (bit_of b j && not (i == j)) && ltb (clear_bit b i) 256

clear_table : every clear_test ≡ true
unfolding passes_under bit_of clear_bit
clear_table = refl

abbrev keep_test : ℕ → ℕ → ℕ → Bool
keep_test b i j =
    bool_eq (bit_of (keep_lower b i) j) (bit_of b j && ltb j i) && ltb (keep_lower b i) 256

keep_table : every keep_test ≡ true
unfolding passes_under bit_of keep_lower
keep_table = refl

-- The highest bit of a byte that is not zero: `i` is not read.
abbrev top_test : ℕ → ℕ → ℕ → Bool
top_test b i j =
    b == 0
    || (ltb (leading_zeros_u8 b) 8
        && bit_of b (7 - leading_zeros_u8 b)
        && (leb j (7 - leading_zeros_u8 b) || not (bit_of b j)))

top_table : every top_test ≡ true
unfolding passes_under bit_of leading_zeros_u8
top_table = refl

zero_table : every (λ b i j. not (bit_of 0 j)) ≡ true
unfolding passes_under bit_of
zero_table = refl

module _ (b i j : ℕ) (hb : b < 256) (hi : i < 8) (hj : j < 8) where
  pub set_bit-bits : (bit_of (set_bit b i) j ≡ (bit_of b j || i == j)) × (set_bit b i < 256)
  set_bit-bits =
      let t = every_sound set_test b i j set_table hb hi hj in
      ground (arith, bool_eq_sound (bit_of (set_bit b i) j) (bit_of b j || i == j), t)

  pub clear_bit-bits :
      (bit_of (clear_bit b i) j ≡ (bit_of b j && not (i == j))) × (clear_bit b i < 256)
  clear_bit-bits =
      let t = every_sound clear_test b i j clear_table hb hi hj in
      ground (arith, bool_eq_sound (bit_of (clear_bit b i) j) (bit_of b j && not (i == j)), t)

  pub keep_lower-bits :
      (bit_of (keep_lower b i) j ≡ (bit_of b j && ltb j i)) × (keep_lower b i < 256)
  keep_lower-bits =
      let t = every_sound keep_test b i j keep_table hb hi hj in
      ground (arith, bool_eq_sound (bit_of (keep_lower b i) j) (bit_of b j && ltb j i), t)

-- A byte that is not zero has a highest bit, which `leading_zeros` finds.
pub top_bit :
    (b j : ℕ)
    → b < 256
    → b ≢ 0
    → j < 8
    → (leading_zeros_u8 b < 8)
      × (bit_of b (7 - leading_zeros_u8 b) ≡ true)
      × ((j ≤ 7 - leading_zeros_u8 b) ⊎ (bit_of b j ≡ false))
top_bit b j hb some_bit hj =
    let t = every_sound top_test b 0 j top_table hb (omega arith) hj in ground (arith, t)

pub zero_byte : (j : ℕ) → j < 8 → bit_of 0 j ≡ false
zero_byte j hj =
    let t =
      every_sound (λ b i j. not (bit_of 0 j)) 0 0 j zero_table (omega arith) (omega arith) hj in
    ground (arith, t)
