-- ===== src/Math/Bn/Tests.antt =====
-- Runs of `crates/library/src/math/bn.rs` on concrete factors, the ones of its own tests among them.
use fluid_solana_programs.Base.{ℕ, ◌+◌, ◌*◌, ◌-◌, ◌/◌, ◌^◌, ◌≤◌, ◌≡◌, ◌⊎◌, refl, arith, inl}
use fluid_solana_programs.Base.Errors.{library, library_division_by_zero}
use fluid_solana_programs.Base.Result.{ok, err}
use fluid_solana_programs.Math.Bn.{
  extract_coefficient, extract_exponent, create_big_number, divide_shifted, mul_div_normal,
  mul_div_big_number, mul_big_number, div_big_number, overflow_len, max_mask_debt_factor,
  adjusted_overflow_len,
}
use fluid_solana_programs.Math.Bn.Coefficient.{IsNormal}
use fluid_solana_programs.Math.Bn.Factor.{
  IsCutOff, mul_div_big_number-IsCutOff, mul_big_number-IsCutOff,
}
use fluid_solana_programs.Math.Bn.Quotient.{
  div_big_number-IsCutOff, mul_div_normal-exact, mul_div_normal-lost,
}

-- The greatest and the least coefficient, with the exponent in the middle and one that is 94 greater.
abbrev initial : ℕ
initial = create_big_number (2 ^ 35 - 1) 16384

abbrev half : ℕ
half = create_big_number (2 ^ 34) 16384

abbrev distant : ℕ
distant = create_big_number (2 ^ 34) 16478

test_mul_div_normal : mul_div_normal 1000000 half initial ≡ ok 500000
unfolding mul_div_normal divide_shifted
test_mul_div_normal = refl

-- The shift of the divisor drops its only bit.
test_mul_div_normal_lost :
    mul_div_normal 1000000 half distant ≡ err (library library_division_by_zero)
unfolding mul_div_normal divide_shifted
test_mul_div_normal_lost = refl

test_div_big_number : div_big_number half half ≡ ok (create_big_number (2 ^ 34) 16350)
unfolding div_big_number
test_div_big_number = refl

mul_div_normal-exact_example :
    mul_div_normal 1000000 half initial ≡ ok (1000000 * 2 ^ 34 / ((2 ^ 35 - 1) * 2 ^ 0))
mul_div_normal-exact_example =
    mul_div_normal-exact 1000000 half initial (omega arith) (omega arith, omega arith)
      (omega arith, omega arith) (omega arith) (inl (omega arith)) (omega arith)

mul_div_normal-lost_example :
    (1000000 * 2 ^ 34 / (2 ^ 34 * 2 ^ 94) ≡ 0)
    × (mul_div_normal 1000000 half distant ≡ err (library library_division_by_zero))
mul_div_normal-lost_example =
    mul_div_normal-lost 1000000 half distant (omega arith) (omega arith, omega arith)
      (omega arith, omega arith) (omega arith) (omega arith) (omega arith) (omega arith)

mul_div_big_number-IsCutOff_example :
    (r : ℕ) × (dropped : ℕ) × (mul_div_big_number initial (2 ^ 63) ≡ ok r)
    × IsNormal r
    × (extract_exponent r + 64 ≡ 16384 + dropped)
    × IsCutOff ((2 ^ 35 - 1) * 2 ^ 63) dropped r
mul_div_big_number-IsCutOff_example =
    mul_div_big_number-IsCutOff initial (2 ^ 63) (omega arith, omega arith) (omega arith)
      (omega arith) (omega arith)

mul_big_number-IsCutOff_example :
    let product = extract_coefficient initial * extract_coefficient half in
    let exponent = extract_exponent initial + extract_exponent half + overflow_len product in
    (r : ℕ) × (mul_big_number initial half ≡ ok r)
    × IsNormal r
    × (((r ≡ max_mask_debt_factor) × (2 ^ 15 + 16384 ≤ exponent))
        ⊎ ((extract_exponent r + 16384 ≡ exponent) × IsCutOff product (overflow_len product) r))
mul_big_number-IsCutOff_example =
    mul_big_number-IsCutOff initial half (omega arith, omega arith) (omega arith, omega arith)
      (omega arith)

div_big_number-IsCutOff_example :
    let quotient = extract_coefficient initial * 2 ^ 64 / extract_coefficient half in
    (r : ℕ) × (div_big_number initial half ≡ ok r)
    × IsNormal r
    × (extract_exponent r + extract_exponent half + 64
        ≡ extract_exponent initial + 16384 + adjusted_overflow_len quotient)
    × IsCutOff quotient (adjusted_overflow_len quotient) r
div_big_number-IsCutOff_example =
    div_big_number-IsCutOff initial half (omega arith, omega arith) (omega arith, omega arith)
      (omega arith) (omega arith)
