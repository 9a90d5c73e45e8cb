-- ===== src/Math/U256.antt =====
-- `U256Muldiv` of `crates/library/src/math/u256.rs`: 256-bit numbers as four 64-bit words, the least
-- significant word first, with the product of two 128-bit numbers and the quotient.
pub mod Shift
pub mod Division
pub mod MulDiv
pub mod Value
pub mod Quotient
mod Tests
use Prim.Native.Nat.{bit_or}
use fluid_solana_programs.Base.{ℕ, ◌+◌, ◌-◌, ◌*◌, ◌/◌, ◌%◌, ◌^◌, ◌≡◌, ltb, leb, ◌==◌, if◌then◌else◌}
use fluid_solana_programs.Base.Errors.{library, library_u256_number_down_cast_error}
use fluid_solana_programs.Base.Result.{Result, ok, err}

-- One word holds the numbers below this.
abbrev pub word : ℕ
word = 2 ^ 64

-- The array `items`.
pub record U256Muldiv : Type 0 where
  pub item0 : ℕ
  pub item1 : ℕ
  pub item2 : ℕ
  pub item3 : ℕ

-- The trait `LoHi` on a u128.
abbrev pub lo : ℕ → ℕ
lo n = n % word

abbrev pub hi : ℕ → ℕ
hi n = n / word

abbrev pub hi_lo : ℕ → ℕ → ℕ
hi_lo h l = h * word + l

abbrev pub new : ℕ → ℕ → U256Muldiv
new h l = record { item0 = lo l; item1 = hi l; item2 = lo h; item3 = hi h }

-- `items[index]`, for an index below 4.
abbrev pub get_word : U256Muldiv → ℕ → ℕ
get_word n index =
    if index == 0
    then n.item0
    else if index == 1
    then n.item1
    else if index == 2
    then n.item2
    else n.item3

-- `items[index] = value`, for an index below 4.
abbrev pub update_word : U256Muldiv → ℕ → ℕ → U256Muldiv
update_word n index value =
    if index == 0
    then record n { item0 = value }
    else if index == 1
    then record n { item1 = value }
    else if index == 2
    then record n { item2 = value }
    else record n { item3 = value }

unfoldable pub num_words : U256Muldiv → ℕ
num_words n =
    if n.item3 == 0
    then if n.item2 == 0 then if n.item1 == 0 then if n.item0 == 0 then 0 else 1 else 2 else 3
    else 4

unfoldable pub try_into_u128 : U256Muldiv → Result ℕ
unfolding num_words
try_into_u128 n =
    if ltb 2 (num_words n)
    then err (library library_u256_number_down_cast_error)
    else ok (hi_lo n.item1 n.item0)

unfoldable pub mul_u256 : ℕ → ℕ → U256Muldiv
mul_u256 v n =
    let a0 = lo v * lo n in
    let a1 = lo v * hi n in
    let b0 = hi v * lo n in
    let carry = hi a0 + lo a1 + lo b0 in
    let c0 = hi_lo (lo carry) (lo a0) in
    let c1 = hi v * hi n + hi carry + hi a1 + hi b0 in new c1 c0
