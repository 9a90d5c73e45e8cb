-- ===== src/Math/Bn/Coefficient.antt =====
-- The coefficients of `crates/library/src/math/bn.rs`: normal ones have their 35th bit set.
use native.Mathlib.Nat.{
  add-suc, pow-suc, pow-le-pow_right, div-add-mod, mod-lt, div-lt_iff_lt-mul, div-mul-le_self,
  le-div_iff_mul-le, one-le-pow,
}
use native.Mathlib.Decide.{dec_le}
use fluid_solana_programs.Base.{
  ℕ, zero, suc, ◌+◌, ◌-◌, ◌*◌, ◌/◌, ◌^◌, ◌≤◌, ◌<◌, ◌≡◌, ◌∙◌, ap, sym, ◌==◌, ltb, true, false, refl,
  arith,
}
use fluid_solana_programs.Math.U256.Shift.{zeros_above}
use fluid_solana_programs.Math.Bn.{
  extract_coefficient, extract_exponent, create_big_number, most_significant_bit, excess_bits,
}

-- A coefficient of exactly 35 bits.
abbrev pub IsCoefficient : ℕ → Type 0
IsCoefficient c = (2 ^ 34 ≤ c) × (c < 2 ^ 35)

-- A big number with a coefficient of exactly 35 bits.
abbrev pub IsNormal : ℕ → Type 0
IsNormal b = IsCoefficient (extract_coefficient b)

-- A number of `suc m` bits.
abbrev HasBits : ℕ → ℕ → Type 0
HasBits m n = (2 ^ m ≤ n) × (n < 2 ^ suc m)

pub create-extract_coefficient :
    (c e : ℕ) → c < 2 ^ 35 → e < 2 ^ 15 → extract_coefficient (create_big_number c e) ≡ c
create-extract_coefficient c e hc he = omega arith

pub create-extract_exponent : (c e : ℕ) → e < 2 ^ 15 → extract_exponent (create_big_number c e) ≡ e
create-extract_exponent c e he = omega arith

zeros_above_lem :
    (k w : ℕ) → 0 < w → w < 2 ^ k → (m : ℕ) × (m < k) × (zeros_above k w + suc m ≡ k) × HasBits m w
unfolding zeros_above
zeros_above_lem zero w p h = absurd (ground (arith, h))
zeros_above_lem (suc k) w p h = elim (dec_le (2 ^ k) w) [
  | yes top ↦ (k, omega arith, ground arith, (top, h))
  | no low ↦
      let below : w < 2 ^ k = omega arith in
      let (m, m_lt, count, bits) = zeros_above_lem k w p below in
      (m, omega arith, ground arith, bits)
]

pub positive_is_not_zero : (n : ℕ) → 0 < n → (n == 0) ≡ false
positive_is_not_zero n p = ground arith

-- The position of the most significant bit, counted from 1, is the number of bits.
pub most_significant_bit-HasBits :
    (n : ℕ)
    → 0 < n
    → n < 2 ^ 128
    → (m : ℕ) × (m < 128) × (most_significant_bit n ≡ suc m) × HasBits m n
unfolding most_significant_bit
most_significant_bit-HasBits n p h =
    let (m, m_lt, count, bits) = zeros_above_lem 128 n p h in
    let positive : (n == 0) ≡ false = positive_is_not_zero n p in
    let position : 128 - zeros_above 128 n ≡ suc m = omega arith in
    (m, m_lt, rw positive position, bits)

pub pow_plus : (d : ℕ) → 2 ^ (34 + d) ≡ 2 ^ 34 * 2 ^ d
pow_plus zero = refl
pow_plus (suc d) =
    let step : 2 ^ (34 + suc d) ≡ 2 ^ (34 + d) * 2 =
      ap (λ k. 2 ^ k) (add-suc 34 d) ∙ pow-suc 2 (34 + d) in
    let ih = pow_plus d in
    let last = pow-suc 2 d in
    let twice : 2 ^ (34 + d) * 2 ≡ 2 ^ 34 * (2 ^ d * 2) = omega arith in
    step ∙ twice ∙ ap (λ x. 2 ^ 34 * x) (sym last)

-- What is left of a number of `35 + d` bits without its `d` low bits is a coefficient, and they are cut off.
pub shift-IsCoefficient :
    (n d : ℕ)
    → HasBits (34 + d) n
    → IsCoefficient (n / 2 ^ d) × (n / 2 ^ d * 2 ^ d ≤ n) × (n < (n / 2 ^ d + 1) * 2 ^ d)
shift-IsCoefficient n d (low, high) =
    let p : 0 < 2 ^ d = one-le-pow d 2 (omega arith) in
    let e = pow_plus d in
    let twice = pow-suc 2 (34 + d) in
    let under = div-mul-le_self n (2 ^ d) in
    let split = div-add-mod n (2 ^ d) in
    let rest = mod-lt n p in
    let at_least = (le-div_iff_mul-le {k = 2 ^ d} {x = 2 ^ 34} {y = n} p).1 (omega arith) in
    let at_most = (div-lt_iff_lt-mul {k = 2 ^ d} {x = n} {y = 2 ^ 35} p).1 (omega arith) in
    ((at_least, at_most), under, grind arith)

pub ltb_suc : (k n : ℕ) → k ≤ n → 0 < k → ltb (k - 1) n ≡ true
ltb_suc k n h p = ground arith

pub not_ltb_suc : (k n : ℕ) → ¬ (k ≤ n) → 0 < k → ltb (k - 1) n ≡ false
not_ltb_suc k n h p = ground arith

pub not_ltb : (n k : ℕ) → k ≤ n → ltb n k ≡ false
not_ltb n k h = ground arith

bits_ge : (k m n : ℕ) → 2 ^ k ≤ n → n < 2 ^ suc m → k ≤ m
bits_ge k m n low high = elim (dec_le k m) [
  | yes le ↦ le
  | no gt ↦
      let grows : 2 ^ suc m ≤ 2 ^ k = pow-le-pow_right {n = 2} (omega arith) (omega arith) in
      absurd (omega arith)
]

bits_le : (k m n : ℕ) → 2 ^ m ≤ n → n < 2 ^ k → m < k
bits_le k m n low high = elim (dec_le k m) [
  | no gt ↦ omega arith
  | yes le ↦
      let grows : 2 ^ k ≤ 2 ^ m = pow-le-pow_right {n = 2} (omega arith) le in absurd (omega arith)
]

same_bits : (m k n : ℕ) → m ≡ k → HasBits m n → HasBits k n
same_bits m k n e bits = rw (← e) bits

-- Between 35 and 99 bits, the bits beyond a coefficient are counted right.
pub excess_bits-HasBits :
    (n : ℕ)
    → 2 ^ 34 ≤ n
    → n < 2 ^ 99
    → (d : ℕ) × (d ≤ 64) × (excess_bits n ≡ d) × HasBits (34 + d) n
unfolding excess_bits
excess_bits-HasBits n low high = elim (dec_le (2 ^ 98) n) [
  | yes long ↦
      let most : ltb (2 ^ 98 - 1) n ≡ true = ltb_suc (2 ^ 98) n long (omega arith) in
      (64, omega arith, rw most refl, (long, high))
  | no short ↦
      let below : ltb (2 ^ 98 - 1) n ≡ false = not_ltb_suc (2 ^ 98) n short (omega arith) in
      elim (dec_le (2 ^ 97) n) [
        | yes long ↦
            let most : ltb (2 ^ 97 - 1) n ≡ true = ltb_suc (2 ^ 97) n long (omega arith) in
            (63, omega arith, rw (below, most) refl, (long, omega arith))
        | no small ↦
            let few : ltb (2 ^ 97 - 1) n ≡ false = not_ltb_suc (2 ^ 97) n small (omega arith) in
            let (m, m_lt, position, bits) =
              most_significant_bit-HasBits n (omega arith) (omega arith) in
            let enough = bits_ge 34 m n low bits.1 in
            let enough' = bits_le 97 m n bits.0 (omega arith) in
            let bits' : HasBits (34 + (m - 34)) n =
              same_bits m (34 + (m - 34)) n (omega arith) bits in
            (m - 34, omega arith, rw (below, few, position) (omega arith), bits')
      ]
]
