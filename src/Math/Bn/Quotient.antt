-- ===== src/Math/Bn/Quotient.antt =====
-- The quotients of `crates/library/src/math/bn.rs`: the connection factor of a merged branch, and the
-- debt that a liquidation leaves to a position.
use native.Mathlib.Nat.{
  pow-suc, le-div_iff_mul-le, div-lt_iff_lt-mul, div-add-mod, mod-eq_of_lt, mul-le-mul,
  mul-mod_right, pow-le-pow_right, one-le-pow,
}
use native.Mathlib.Decide.{dec_le}
use fluid_solana_programs.Base.{
  ℕ, zero, suc, ◌+◌, ◌-◌, ◌*◌, ◌/◌, ◌%◌, ◌^◌, ◌≤◌, ◌<◌, ◌≡◌, ◌∙◌, ap, refl, arith, ltb, leb, ◌==◌,
  true, false, ◌⊎◌, inl, inr, Bool-cases, sym,
}
use fluid_solana_programs.Base.Errors.{library, library_division_by_zero}
use fluid_solana_programs.Base.Result.{ok, err}
use fluid_solana_programs.Math.Words.{u64_max, u128_max}
use fluid_solana_programs.Math.Bn.{
  extract_coefficient, extract_exponent, create_big_number, mul_div_normal, divide_shifted,
  quotient_u64, div_big_number, adjusted_overflow_len, exponent_max_debt_factor,
}
use fluid_solana_programs.Math.Bn.Coefficient.{
  IsCoefficient, IsNormal, positive_is_not_zero, not_ltb, shift-IsCoefficient,
}
use fluid_solana_programs.Math.Bn.Factor.{IsCutOff, created}

adjusted-shift :
    (q : ℕ)
    → 2 ^ 63 ≤ q
    → q < 2 ^ 65
    → IsCoefficient (q / 2 ^ adjusted_overflow_len q)
      × (q / 2 ^ adjusted_overflow_len q * 2 ^ adjusted_overflow_len q ≤ q)
      × (q < (q / 2 ^ adjusted_overflow_len q + 1) * 2 ^ adjusted_overflow_len q)
adjusted-shift q low high = elim (dec_le (2 ^ 64) q) [
  | yes long ↦
      let over : (q / 2 ^ 64 == 1) ≡ true = ground arith in
      rw over (shift-IsCoefficient q 30 (long, high))
  | no short ↦
      let under : (q / 2 ^ 64 == 1) ≡ false = ground arith in
      rw under (shift-IsCoefficient q 29 (low, omega arith))
]

adjusted-bounds : (q : ℕ) → (29 ≤ adjusted_overflow_len q) × (adjusted_overflow_len q ≤ 30)
adjusted-bounds q = ground arith

-- The quotient of two normal factors where the exponent of the result is from 1 to 32767: the call
-- succeeds and returns a normal factor. Its coefficient is the quotient of the coefficients with 64
-- bits more, cut off, and its exponent is the difference of the two, with the bits that were cut off
-- and 16384 more, and 64 less.
pub div_big_number-IsCutOff :
    (b₁ b₂ : ℕ)
    → IsNormal b₁
    → IsNormal b₂
    → let quotient = extract_coefficient b₁ * 2 ^ 64 / extract_coefficient b₂ in
      let exponent = extract_exponent b₁ + 16384 + adjusted_overflow_len quotient in
      extract_exponent b₂ + 64 < exponent
      → exponent ≤ extract_exponent b₂ + 64 + exponent_max_debt_factor
      → (r : ℕ) × (div_big_number b₁ b₂ ≡ ok r)
        × IsNormal r
        × (extract_exponent r + extract_exponent b₂ + 64 ≡ exponent)
        × IsCutOff quotient (adjusted_overflow_len quotient) r
unfolding div_big_number
div_big_number-IsCutOff b₁ b₂ normal₁ normal₂ above fits =
    let c₁ = extract_coefficient b₁ in
    let c₂ = extract_coefficient b₂ in
    let q = c₁ * 2 ^ 64 / c₂ in
    let p : 0 < c₂ = omega arith in
    let low : 2 ^ 63 ≤ q =
      (le-div_iff_mul-le {k = c₂} {x = 2 ^ 63} {y = c₁ * 2 ^ 64} p).1 (omega arith) in
    let high : q < 2 ^ 65 =
      (div-lt_iff_lt-mul {k = c₂} {x = c₁ * 2 ^ 64} {y = 2 ^ 65} p).1 (omega arith) in
    let cut = adjusted-shift q low high in
    let length = adjusted_overflow_len q in
    let exponent = extract_exponent b₁ + 16384 + length in
    let subtracted = extract_exponent b₂ + 64 in
    let (is_normal, exact, cut_off) =
      created q (q / 2 ^ length) length (exponent - subtracted) cut (omega arith) in
    let some₁ = positive_is_not_zero b₁ (omega arith) in
    let some₂ = positive_is_not_zero b₂ (omega arith) in
    let some_coefficient = positive_is_not_zero c₂ p in
    let positive : ltb subtracted exponent ≡ true = ground (arith, above) in
    let within = not_ltb exponent_max_debt_factor (exponent - subtracted) (omega arith) in
    (
      create_big_number (q / 2 ^ length % 2 ^ 64) (exponent - subtracted),
      rw (div_big_number, some₁, some₂, some_coefficient, positive, within) refl,
      is_normal,
      rw exact (omega arith),
      cut_off,
    )

-- A power of two is a product with any lower one.
power_split : (k n : ℕ) → k ≤ n → 2 ^ n ≡ 2 ^ k * 2 ^ (n - k)
power_split zero n h = let all : n - 0 ≡ n = omega arith in rw all (omega arith)
power_split (suc k) zero h = absurd (omega arith)
power_split (suc k) (suc n) h =
    let ih = power_split k n (omega arith) in
    let left = pow-suc 2 n in
    let right = pow-suc 2 k in
    let same : suc n - suc k ≡ n - k = omega arith in rw (same, left, right, ih) (grind arith)

shift-fits : (c net : ℕ) → c < 2 ^ 35 → net ≤ 93 → c * 2 ^ net < 2 ^ 128
shift-fits c net hc hn =
    let step : 2 ^ net ≤ 2 ^ 93 = pow-le-pow_right {n = 2} (omega arith) hn in
    let product : c * 2 ^ net ≤ (2 ^ 35 - 1) * 2 ^ 93 =
      mul-le-mul {n₂ = 2 ^ 35 - 1} (omega arith) step in
    omega arith

far-quotient :
    (numerator c net : ℕ)
    → numerator < 2 ^ 99
    → 2 ^ 34 ≤ c
    → 94 ≤ net
    → (0 < c * 2 ^ net) × (numerator / (c * 2 ^ net) ≡ 0)
far-quotient numerator c net high hc hn =
    let step : 2 ^ 94 ≤ 2 ^ net = pow-le-pow_right {n = 2} (omega arith) hn in
    let product : 2 ^ 34 * 2 ^ 94 ≤ c * 2 ^ net = mul-le-mul hc step in
    let p : 0 < c * 2 ^ net = omega arith in
    let below = (div-lt_iff_lt-mul {k = c * 2 ^ net} {x = numerator} {y = 1} p).1 (omega arith) in
    (p, omega arith)

divide_shifted-near :
    (normal c₁ c₂ net : ℕ)
    → normal ≤ u64_max
    → c₁ < 2 ^ 35
    → IsCoefficient c₂
    → net ≤ 93
    → normal * c₁ / (c₂ * 2 ^ net) ≤ u64_max
    → divide_shifted normal c₁ c₂ net ≡ ok (normal * c₁ / (c₂ * 2 ^ net))
unfolding divide_shifted
divide_shifted-near normal c₁ c₂ net hn h₁ h₂ near fits =
    let product : normal * c₁ ≤ u64_max * (2 ^ 35 - 1) =
      mul-le-mul {m₂ = 2 ^ 35 - 1} hn (omega arith) in
    let in_u128 : leb (normal * c₁) u128_max ≡ true = ground (arith, product) in
    let in_shift : ltb net 128 ≡ true = ground (arith, near) in
    let kept = mod-eq_of_lt (shift-fits c₂ net h₂.1 near) in
    let power = one-le-pow net 2 (omega arith) in
    let p : 1 * 1 ≤ c₂ * 2 ^ net = mul-le-mul {n₁ = 1} (omega arith) power in
    let some_denominator = positive_is_not_zero (c₂ * 2 ^ net) (omega arith) in
    let in_u64 = not_ltb u64_max (normal * c₁ / (c₂ * 2 ^ net)) fits in
    rw (in_u128, in_shift, kept, quotient_u64, some_denominator, in_u64) refl

divide_shifted-lost :
    (normal c₁ c₂ net : ℕ)
    → normal ≤ u64_max
    → c₁ < 2 ^ 35
    → net < 128
    → c₂ * 2 ^ net % 2 ^ 128 ≡ 0
    → divide_shifted normal c₁ c₂ net ≡ err (library library_division_by_zero)
unfolding divide_shifted
divide_shifted-lost normal c₁ c₂ net hn h₁ in_shift none_left =
    let product : normal * c₁ ≤ u64_max * (2 ^ 35 - 1) =
      mul-le-mul {m₂ = 2 ^ 35 - 1} hn (omega arith) in
    let in_u128 : leb (normal * c₁) u128_max ≡ true = ground (arith, product) in
    let shifted : ltb net 128 ≡ true = ground (arith, in_shift) in
    rw (in_u128, shifted, none_left, quotient_u64) refl

regroup : (c low high part all : ℕ) → all ≡ low * high → high * part ≡ c → c * low ≡ all * part
regroup c low high part all whole parts = rw (whole, ← parts) (omega arith)

-- Where the low bits of a number are zero, a shift that puts the others beyond 128 bits leaves nothing.
shifted_out : (c net : ℕ) → net < 128 → c % 2 ^ (128 - net) ≡ 0 → c * 2 ^ net % 2 ^ 128 ≡ 0
shifted_out c net h low_bits =
    let whole = power_split net 128 (omega arith) in
    let parts = div-add-mod c (2 ^ (128 - net)) in
    let no_rest : 2 ^ (128 - net) * (c / 2 ^ (128 - net)) ≡ c = omega arith in
    let split =
      regroup c (2 ^ net) (2 ^ (128 - net)) (c / 2 ^ (128 - net)) (2 ^ 128) whole no_rest in
    rw split (mul-mod_right (2 ^ 128) (c / 2 ^ (128 - net)))

module _ (normal b₁ b₂ : ℕ) (is_u64 : normal ≤ u64_max) (normal₁ : IsNormal b₁)
    (normal₂ : IsNormal b₂) (ordered : extract_exponent b₁ ≤ extract_exponent b₂) where
  abbrev net : ℕ
  net = extract_exponent b₂ - extract_exponent b₁

  to_branch :
      ltb net 129 ≡ true
      → mul_div_normal normal b₁ b₂
        ≡ divide_shifted normal (extract_coefficient b₁) (extract_coefficient b₂) net
  unfolding mul_div_normal
  to_branch near =
      let some₁ = positive_is_not_zero b₁ (omega arith) in
      let some₂ = positive_is_not_zero b₂ (omega arith) in
      let up = not_ltb (extract_exponent b₂) (extract_exponent b₁) ordered in
      rw (some₁, some₂, up, near) refl

  far : 128 ≤ net → mul_div_normal normal b₁ b₂ ≡ ok 0
  unfolding mul_div_normal divide_shifted
  far wide =
      let some₁ = positive_is_not_zero b₁ (omega arith) in
      let some₂ = positive_is_not_zero b₂ (omega arith) in
      let up = not_ltb (extract_exponent b₂) (extract_exponent b₁) ordered in
      let out_of_shift = not_ltb net 128 wide in
      let product : normal * extract_coefficient b₁ ≤ u64_max * (2 ^ 35 - 1) =
        mul-le-mul {m₂ = 2 ^ 35 - 1} is_u64 (omega arith) in
      let in_u128 : leb (normal * extract_coefficient b₁) u128_max ≡ true =
        ground (arith, product) in
      elim (Bool-cases (ltb net 129)) [
        | inl last ↦
            rw (mul_div_normal, some₁, some₂, up, last, divide_shifted, in_u128, out_of_shift) refl
        | inr beyond ↦ rw (mul_div_normal, some₁, some₂, up, beyond) refl
      ]

  -- A number of u64 times a normal factor over a normal factor with no smaller exponent, where the
  -- exponents differ by at most 93 or by at least 128 and the quotient is in u64: the call returns the
  -- exact quotient of the numbers that the factors stand for, rounded down.
  pub mul_div_normal-exact :
      (net ≤ 93) ⊎ (128 ≤ net)
      → normal * extract_coefficient b₁ / (extract_coefficient b₂ * 2 ^ net) ≤ u64_max
      → mul_div_normal normal b₁ b₂
        ≡ ok (normal * extract_coefficient b₁ / (extract_coefficient b₂ * 2 ^ net))
  mul_div_normal-exact (inl near) fits =
      let small : ltb net 129 ≡ true = ground (arith, near) in
      to_branch small
      ∙ divide_shifted-near normal (extract_coefficient b₁) (extract_coefficient b₂) net is_u64
          normal₁.1 normal₂ near fits
  mul_div_normal-exact (inr wide) fits =
      let product : normal * extract_coefficient b₁ ≤ u64_max * (2 ^ 35 - 1) =
        mul-le-mul {m₂ = 2 ^ 35 - 1} is_u64 (omega arith) in
      let (_, zero_quotient) =
        far-quotient (normal * extract_coefficient b₁) (extract_coefficient b₂) net (omega arith)
          normal₂.0 (omega arith) in
      far wide ∙ ap ok (sym zero_quotient)

  -- A number of u64 times a normal factor over a normal factor with a larger exponent, where the
  -- exponents differ by 94 to 127 and the coefficient of the divisor is a multiple of 2 to the power of
  -- 128 less that difference: the quotient of the numbers is 0, but the shifted divisor has lost all
  -- its bits, and the call fails with the error of a division by zero.
  pub mul_div_normal-lost :
      94 ≤ net
      → net < 128
      → extract_coefficient b₂ % 2 ^ (128 - net) ≡ 0
      → (normal * extract_coefficient b₁ / (extract_coefficient b₂ * 2 ^ net) ≡ 0)
        × (mul_div_normal normal b₁ b₂ ≡ err (library library_division_by_zero))
  mul_div_normal-lost far_enough in_shift low_bits =
      let product : normal * extract_coefficient b₁ ≤ u64_max * (2 ^ 35 - 1) =
        mul-le-mul {m₂ = 2 ^ 35 - 1} is_u64 (omega arith) in
      let (_, zero_quotient) =
        far-quotient (normal * extract_coefficient b₁) (extract_coefficient b₂) net (omega arith)
          normal₂.0 far_enough in
      let small : ltb net 129 ≡ true = ground (arith, in_shift) in
      let none_left = shifted_out (extract_coefficient b₂) net in_shift low_bits in
      (
        zero_quotient,
        to_branch small
            ∙ divide_shifted-lost normal (extract_coefficient b₁) (extract_coefficient b₂) net
                is_u64 normal₁.1 in_shift none_left,
      )
