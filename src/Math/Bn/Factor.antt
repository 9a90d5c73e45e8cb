-- ===== src/Math/Bn/Factor.antt =====
-- The products of `crates/library/src/math/bn.rs`: the debt factor of a branch after a liquidation and
-- the connection factor of merged branches are cut off, and stay normal.
use native.Mathlib.Nat.{mul-le-mul}
use native.Mathlib.Decide.{dec_le}
use fluid_solana_programs.Base.{
  ℕ, ◌+◌, ◌-◌, ◌*◌, ◌/◌, ◌%◌, ◌^◌, ◌≤◌, ◌<◌, ◌≡◌, refl, arith, ltb, leb, true, false, ◌⊎◌, inl, inr,
}
use fluid_solana_programs.Base.Result.{ok}
use fluid_solana_programs.Math.Words.{u128_max}
use fluid_solana_programs.Math.Bn.{
  extract_coefficient, extract_exponent, create_big_number, lower_exponent, mul_div_big_number,
  mul_big_number, overflow_len, decimals_debt_factor, max_mask_debt_factor,
}
use fluid_solana_programs.Math.Bn.Coefficient.{
  IsCoefficient, IsNormal, create-extract_coefficient, create-extract_exponent,
  positive_is_not_zero, ltb_suc, not_ltb_suc, not_ltb, shift-IsCoefficient, excess_bits-HasBits,
}

-- `b` is what is left of the coefficient `product` without its `dropped` low bits.
abbrev pub IsCutOff : ℕ → ℕ → ℕ → Type 0
IsCutOff product dropped b =
    (extract_coefficient b * 2 ^ dropped ≤ product)
    × (product < (extract_coefficient b + 1) * 2 ^ dropped)

pub created :
    (product c d e : ℕ)
    → IsCoefficient c × (c * 2 ^ d ≤ product) × (product < (c + 1) * 2 ^ d)
    → e < 2 ^ 15
    → IsNormal (create_big_number (c % 2 ^ 64) e)
      × (extract_exponent (create_big_number (c % 2 ^ 64) e) ≡ e)
      × IsCutOff product d (create_big_number (c % 2 ^ 64) e)
created product c d e (is_coefficient, low, high) he =
    let word : c % 2 ^ 64 ≡ c = omega arith in
    let same = create-extract_coefficient c e is_coefficient.1 he in
    rw (word, same) (is_coefficient, create-extract_exponent c e he, (low, high))

lowers :
    (c e : ℕ) → 64 < e → e - 64 < 2 ^ 15 → lower_exponent c e ≡ ok (create_big_number c (e - 64))
unfolding lower_exponent
lowers c e above fits = ground arith

-- A normal factor with an exponent above 64, times a number from 1 to 2^64, over 2^64: the call
-- succeeds and returns a normal factor. Its coefficient is the product without its low bits, cut off,
-- and its exponent counts those bits and the 64 that the division takes.
pub mul_div_big_number-IsCutOff :
    (b number : ℕ)
    → IsNormal b
    → 64 < extract_exponent b
    → 0 < number
    → number ≤ 2 ^ 64
    → (r : ℕ) × (dropped : ℕ) × (mul_div_big_number b number ≡ ok r)
      × IsNormal r
      × (extract_exponent r + 64 ≡ extract_exponent b + dropped)
      × IsCutOff (extract_coefficient b * number) dropped r
unfolding mul_div_big_number
mul_div_big_number-IsCutOff b number normal exponent p most =
    let c = extract_coefficient b in
    let e = extract_exponent b in
    let low : 2 ^ 34 ≤ c * number = grind arith in
    let high : c * number < 2 ^ 99 = grind arith in
    let (d, d_le, bits, has) = excess_bits-HasBits (c * number) low high in
    let cut = shift-IsCoefficient (c * number) d has in
    let (is_normal, exact, cut_off) =
      created (c * number) (c * number / 2 ^ d) d (e + d - 64) cut (omega arith) in
    let some_factor = positive_is_not_zero b (omega arith) in
    let some_number = positive_is_not_zero number p in
    let fits : leb (c * number) u128_max ≡ true = ground (arith, high) in
    let lowered : lower_exponent (c * number / 2 ^ d % 2 ^ 64) (e + d)
        ≡ ok (create_big_number (c * number / 2 ^ d % 2 ^ 64) (e + d - 64)) =
      lowers _ (e + d) (omega arith) (omega arith) in
    (
      create_big_number (c * number / 2 ^ d % 2 ^ 64) (e + d - 64),
      d,
      rw (mul_div_big_number, some_factor, some_number, fits, bits, lowered) refl,
      is_normal,
      rw exact (omega arith),
      cut_off,
    )

overflow_len-ge : (product : ℕ) → 34 ≤ overflow_len product
overflow_len-ge product = ground arith

overflow_len-shift :
    (product : ℕ)
    → 2 ^ 68 ≤ product
    → product < 2 ^ 70
    → IsCoefficient (product / 2 ^ overflow_len product)
      × (product / 2 ^ overflow_len product * 2 ^ overflow_len product ≤ product)
      × (product < (product / 2 ^ overflow_len product + 1) * 2 ^ overflow_len product)
overflow_len-shift product low high = elim (dec_le (2 ^ 69) product) [
  | yes long ↦
      let over : ltb (2 ^ 69 - 1) product ≡ true = ltb_suc (2 ^ 69) product long (omega arith) in
      rw over (shift-IsCoefficient product 35 (long, high))
  | no short ↦
      let under : ltb (2 ^ 69 - 1) product ≡ false =
        not_ltb_suc (2 ^ 69) product short (omega arith) in
      rw under (shift-IsCoefficient product 34 (low, omega arith))
]

-- The product of two normal factors whose exponents add up to at least 16384, less 34: the call
-- succeeds and returns a normal factor. Where the exponent of the product does not fit it is the
-- greatest one; else its coefficient is the product of the two, cut off, and its exponent is the sum of
-- the two and the number of the bits that were cut off, less 16384.
pub mul_big_number-IsCutOff :
    (b₁ b₂ : ℕ)
    → IsNormal b₁
    → IsNormal b₂
    → 16384 ≤ extract_exponent b₁ + extract_exponent b₂ + 34
    → let product = extract_coefficient b₁ * extract_coefficient b₂ in
      let exponent = extract_exponent b₁ + extract_exponent b₂ + overflow_len product in
      (r : ℕ) × (mul_big_number b₁ b₂ ≡ ok r)
      × IsNormal r
      × (((r ≡ max_mask_debt_factor) × (2 ^ 15 + 16384 ≤ exponent))
          ⊎ ((extract_exponent r + 16384 ≡ exponent) × IsCutOff product (overflow_len product) r))
unfolding mul_big_number
mul_big_number-IsCutOff b₁ b₂ normal₁ normal₂ enough =
    let product = extract_coefficient b₁ * extract_coefficient b₂ in
    let low : 2 ^ 68 ≤ product = mul-le-mul normal₁.0 normal₂.0 in
    let high : product < 2 ^ 70 = grind arith in
    let length = overflow_len product in
    let longer = overflow_len-ge product in
    let cut = overflow_len-shift product low high in
    let sum = extract_exponent b₁ + extract_exponent b₂ in
    let fits : leb product u128_max ≡ true = ground (arith, high) in
    let not_below : ltb (sum + length) decimals_debt_factor ≡ false =
      not_ltb (sum + length) 16384 (omega arith) in
    elim (dec_le (2 ^ 15 + 16384) (sum + length)) [
      | yes over ↦
          let beyond : ltb (2 ^ 15 - 1) (sum + length - 16384) ≡ true =
            ltb_suc (2 ^ 15) (sum + length - 16384) (omega arith) (omega arith) in
          (
            max_mask_debt_factor,
            rw (fits, not_below, beyond) refl,
            (omega arith, omega arith),
            inl (refl, over),
          )
      | no inside ↦
          let within : ltb (2 ^ 15 - 1) (sum + length - 16384) ≡ false =
            not_ltb_suc (2 ^ 15) (sum + length - 16384) (omega arith) (omega arith) in
          let (is_normal, exact, cut_off) =
            created product (product / 2 ^ length) length (sum + length - 16384) cut
              (omega arith) in
          (
            create_big_number (product / 2 ^ length % 2 ^ 64) (sum + length - 16384),
            rw (fits, not_below, within) refl,
            is_normal,
            inr (rw exact (omega arith), cut_off),
          )
    ]
