-- ===== src/Math/U256/Value.antt =====
-- The number that a `U256Muldiv` stands for, and the product.
use fluid_solana_programs.Base.{
  ℕ, ◌+◌, ◌-◌, ◌*◌, ◌/◌, ◌%◌, ◌^◌, ◌≤◌, ◌<◌, ◌≡◌, sym, ◌∙◌, arith, ◌⊎◌,
}
use mathlib.Core.Path.{ap₂}
use native.Mathlib.Nat.{mul-le-mul}
use fluid_solana_programs.Base.Errors.{library, library_u256_number_down_cast_error}
use fluid_solana_programs.Base.Result.{ok, err}
use fluid_solana_programs.Math.U256.{U256Muldiv, lo, hi, new, try_into_u128, mul_u256}

abbrev pub value : U256Muldiv → ℕ
value n = n.item0 + n.item1 * 2 ^ 64 + n.item2 * 2 ^ 128 + n.item3 * 2 ^ 192

-- Every item is a word.
pub record IsWords (n : U256Muldiv) : Type 0 where
  pub item0_lt : n.item0 < 2 ^ 64
  pub item1_lt : n.item1 < 2 ^ 64
  pub item2_lt : n.item2 < 2 ^ 64
  pub item3_lt : n.item3 < 2 ^ 64

pub new-IsWords : (h l : ℕ) → h < 2 ^ 128 → l < 2 ^ 128 → IsWords (new h l)
new-IsWords h l p q = omega arith

-- The four partial products make up the product.
partial_products :
    (vl vh nl nh : ℕ)
    → (vl + vh * 2 ^ 64) * (nl + nh * 2 ^ 64)
      ≡ vl * nl + (vl * nh + vh * nl) * 2 ^ 64 + vh * nh * 2 ^ 128
partial_products vl vh nl nh = omega arith

-- Each carry is picked up once.
carries :
    (a0 a1 b0 b1 : ℕ)
    → (let c = hi a0 + lo a1 + lo b0 in
        value (new (b1 + hi c + hi a1 + hi b0) (lo c * 2 ^ 64 + lo a0)))
      ≡ a0 + (a1 + b0) * 2 ^ 64 + b1 * 2 ^ 128
carries a0 a1 b0 b1 = omega arith

split_word : (v : ℕ) → v % 2 ^ 64 + v / 2 ^ 64 * 2 ^ 64 ≡ v
split_word v = omega arith

-- `mul_u256` is exact: the words stand for the product of the two numbers.
pub mul_u256-value : (v n : ℕ) → value (mul_u256 v n) ≡ v * n
unfolding mul_u256
mul_u256-value v n =
    carries (lo v * lo n) (lo v * hi n) (hi v * lo n) (hi v * hi n)
    ∙ sym (partial_products (lo v) (hi v) (lo n) (hi n))
    ∙ ap₂ ◌*◌ (split_word v) (split_word n)

value_bound :
    (n : U256Muldiv)
    → value n < 2 ^ 256
    → n.item0 < 2 ^ 64
    → n.item1 < 2 ^ 64
    → n.item2 < 2 ^ 64
    → n.item3 < 2 ^ 64
value_bound n h a b c = omega arith

product_lt : (v n : ℕ) → v < 2 ^ 128 → n < 2 ^ 128 → v * n < 2 ^ 256
product_lt v n h k =
    let b : v * n ≤ (2 ^ 128 - 1) * (2 ^ 128 - 1) =
      mul-le-mul {n₁ = v} {m₁ = n} {n₂ = 2 ^ 128 - 1} {m₂ = 2 ^ 128 - 1} (omega arith)
        (omega arith) in
    omega arith

-- The product of two numbers of 128 bits has four words.
pub mul_u256-IsWords : (v n : ℕ) → v < 2 ^ 128 → n < 2 ^ 128 → IsWords (mul_u256 v n)
unfolding mul_u256
mul_u256-IsWords v n h k =
    let below : value (mul_u256 v n) < 2 ^ 256 = rw (mul_u256-value v n) (product_lt v n h k) in
    record {
      item0_lt = omega arith;
      item1_lt = omega arith;
      item2_lt = omega arith;
      item3_lt = value_bound (mul_u256 v n) below (omega arith) (omega arith) (omega arith);
    }

-- `try_into_u128` returns the number exactly where it fits 128 bits.
pub try_into_u128-value :
    (n : U256Muldiv)
    → IsWords n
    → ((value n < 2 ^ 128) × (try_into_u128 n ≡ ok (value n)))
      ⊎ ((2 ^ 128 ≤ value n)
          × (try_into_u128 n ≡ err (library library_u256_number_down_cast_error)))
unfolding try_into_u128
try_into_u128-value n w = ground arith
