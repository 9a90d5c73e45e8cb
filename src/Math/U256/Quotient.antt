-- ===== src/Math/U256/Quotient.antt =====
-- `safe_multiply_divide` against its specification: division by a number of one word.
use native.Mathlib.Nat.{div-lt_iff_lt-mul, div-add-mod, mod-lt, div-le_self, div-eq_of_lt-le}
use native.Mathlib.Decide.{ℕ_discrete}
use fluid_solana_programs.Base.{
  ℕ, ◌+◌, ◌-◌, ◌*◌, ◌/◌, ◌%◌, ◌^◌, ◌≤◌, ◌<◌, ◌≡◌, ◌≢◌, refl, ap, ◌∙◌, arith, ◌⊎◌, inl, inr, true,
  false, ◌==◌,
}
use fluid_solana_programs.Base.Errors.{library, library_u256_number_down_cast_error}
use fluid_solana_programs.Base.Result.{ok, err}
use fluid_solana_programs.Math.U256.{U256Muldiv, lo, hi_lo, new, num_words, try_into_u128, mul_u256}
use fluid_solana_programs.Math.U256.Value.{
  value, IsWords, new-IsWords, mul_u256-value, mul_u256-IsWords, try_into_u128-value,
}
use fluid_solana_programs.Math.U256.MulDiv.{
  short_division, small_division, div, safe_multiply_divide_result, safe_multiply_divide,
}

-- One digit of the short division of `k` and the word `w` by `c`.
abbrev Digit : ℕ → ℕ → ℕ → ℕ → ℕ → Type 0
Digit c k w q r = (q < 2 ^ 64) × (r < c) × (q * c + r ≡ k * 2 ^ 64 + w)

digit_bound : (c k w : ℕ) → k < c → w < 2 ^ 64 → k * 2 ^ 64 + w < 2 ^ 64 * c
digit_bound c k w h l = omega arith

digit :
    (c k w : ℕ)
    → k < c
    → w < 2 ^ 64
    → Digit c k w ((k * 2 ^ 64 + w) / c) (k * 2 ^ 64 + w - c * ((k * 2 ^ 64 + w) / c))
digit c k w h l =
    let d : ℕ = k * 2 ^ 64 + w in
    let small : d / c < 2 ^ 64 =
      (div-lt_iff_lt-mul {k = c} {x = d} {y = 2 ^ 64} (omega arith)).1 (digit_bound c k w h l) in
    let whole : c * (d / c) + d % c ≡ d = div-add-mod d c in
    let below : d % c < c = mod-lt d (omega arith) in (small, omega arith, omega arith)

step3 :
    (c k x0 x1 x2 q2 q1 q0 r2 r1 r0 : ℕ)
    → Digit c k x2 q2 r2
    → Digit c r2 x1 q1 r1
    → Digit c r1 x0 q0 r0
    → (q0 + q1 * 2 ^ 64 + q2 * 2 ^ 128) * c + r0 ≡ k * 2 ^ 192 + x2 * 2 ^ 128 + x1 * 2 ^ 64 + x0
step3 c k x0 x1 x2 q2 q1 q0 r2 r1 r0 a b d = omega arith

-- The division of `p` by `c` that starts with the remainder `k` of the words above.
three_words :
    (p q : U256Muldiv) (c k : ℕ)
    → k < c
    → c < 2 ^ 64
    → IsWords p
    → (s : U256Muldiv) × (r : ℕ) × (short_division 3 p c k q ≡ (s, r))
      × (s.item3 ≡ q.item3)
      × (r < c)
      × (s.item0 < 2 ^ 64)
      × (s.item1 < 2 ^ 64)
      × (s.item2 < 2 ^ 64)
      × ((s.item0 + s.item1 * 2 ^ 64 + s.item2 * 2 ^ 128) * c + r
          ≡ k * 2 ^ 192 + p.item2 * 2 ^ 128 + p.item1 * 2 ^ 64 + p.item0)
unfolding short_division
three_words p q c k kc cw w =
    let q2 : ℕ = (k * 2 ^ 64 + p.item2) / c in
    let r2 : ℕ = k * 2 ^ 64 + p.item2 - c * q2 in
    let d2 : Digit c k p.item2 q2 r2 = digit c k p.item2 kc w.item2_lt in
    let q1 : ℕ = (r2 * 2 ^ 64 + p.item1) / c in
    let r1 : ℕ = r2 * 2 ^ 64 + p.item1 - c * q1 in
    let d1 : Digit c r2 p.item1 q1 r1 = digit c r2 p.item1 d2.1 w.item1_lt in
    let q0 : ℕ = (r1 * 2 ^ 64 + p.item0) / c in
    let r0 : ℕ = r1 * 2 ^ 64 + p.item0 - c * q0 in
    let d0 : Digit c r1 p.item0 q0 r0 = digit c r1 p.item0 d1.1 w.item0_lt in
    let lk : lo k ≡ k = omega arith in
    let l2 : lo r2 ≡ r2 = omega (arith, d2.1) in
    let l1 : lo r1 ≡ r1 = omega (arith, d1.1) in
    let m2 : lo q2 ≡ q2 = omega (arith, d2.0) in
    let m1 : lo q1 ≡ q1 = omega (arith, d1.0) in
    let m0 : lo q0 ≡ q0 = omega (arith, d0.0) in
    (
      record { item0 = q0; item1 = q1; item2 = q2; item3 = q.item3 },
      r0,
      rw (lk, l2, l1, m2, m1, m0),
      refl,
      d0.1,
      d0.0,
      d1.0,
      d2.0,
      step3 c k p.item0 p.item1 p.item2 q2 q1 q0 r2 r1 r0 d2 d1 d0,
    )

-- The result of a division by the word `c`: quotient and remainder.
abbrev Divided : U256Muldiv → ℕ → U256Muldiv → ℕ → Type 0
Divided p c s r = IsWords s × (r < c) × (value s * c + r ≡ value p)

abbrev zero_words : U256Muldiv
zero_words = new 0 0

module _ (p : U256Muldiv) (c : ℕ) (c_pos : 0 < c) (cw : c < 2 ^ 64) (w : IsWords p) where
  four : p.item3 ≢ 0 → num_words p ≡ 4
  unfolding num_words
  four h = ground arith

  three : p.item3 ≡ 0 → p.item2 ≢ 0 → num_words p ≡ 3
  unfolding num_words
  three z h = ground arith

  four_words :
      (s : U256Muldiv) × (r : ℕ) × (short_division 4 p c 0 zero_words ≡ (s, r)) × Divided p c s r
  unfolding short_division
  four_words =
      let q3 : ℕ = (0 * 2 ^ 64 + p.item3) / c in
      let r3 : ℕ = 0 * 2 ^ 64 + p.item3 - c * q3 in
      let d3 : Digit c 0 p.item3 q3 r3 = digit c 0 p.item3 c_pos w.item3_lt in
      let m3 : lo q3 ≡ q3 = omega (arith, d3.0) in
      let (s, r, e, top, rc, w0, w1, w2, total) =
        three_words p (record zero_words { item3 = q3 }) c r3 d3.1 cw w in
      let top_product : s.item3 * c ≡ q3 * c = ap (λ (t : ℕ). t * c) top in
      (
        s,
        r,
        rw m3 e,
        (
          record { item0_lt = w0; item1_lt = w1; item2_lt = w2; item3_lt = omega (arith, d3.0) },
          rc,
          omega (arith, d3.2),
        ),
      )

  divisor_words : num_words (new 0 c) ≡ 1
  unfolding num_words
  divisor_words = ground arith

  div_four :
      p.item3 ≢ 0
      → (s : U256Muldiv) × (r : ℕ) × (div p (new 0 c) true ≡ ok (s, new 0 r)) × Divided p c s r
  unfolding div
  div_four h =
      let (s, r, e, d) = four_words in
      let n : num_words p ≡ 4 = four h in
      let lc : lo c ≡ c = omega arith in (s, r, rw (divisor_words, n, lc, e), d)

  div_three :
      p.item3 ≡ 0
      → p.item2 ≢ 0
      → (s : U256Muldiv) × (r : ℕ) × (div p (new 0 c) true ≡ ok (s, new 0 r)) × Divided p c s r
  unfolding div
  div_three z h =
      let (s, r, e, top, rc, w0, w1, w2, total) = three_words p zero_words c 0 c_pos cw w in
      let n : num_words p ≡ 3 = three z h in
      let lc : lo c ≡ c = omega arith in
      let is_words : IsWords s = record {
        item0_lt = w0;
        item1_lt = w1;
        item2_lt = w2;
        item3_lt = omega arith;
      } in
      let top_product : s.item3 * c ≡ 0 * c = ap (λ (t : ℕ). t * c) top in
      (s, r, rw (divisor_words, n, lc, e), (is_words, rc, omega arith))

  div_small :
      p.item3 ≡ 0
      → p.item2 ≡ 0
      → (s : U256Muldiv) × (r : ℕ) × (div p (new 0 c) true ≡ ok (s, new 0 r)) × Divided p c s r
  unfolding div small_division num_words try_into_u128
  div_small z y =
      let v : ℕ = hi_lo p.item1 p.item0 in
      let q-le : v / c ≤ v = div-le_self v c in
      let whole : c * (v / c) + v % c ≡ v = div-add-mod v c in
      let same : value (new 0 (v / c)) ≡ v / c = omega arith in
      (
        new 0 (v / c),
        v % c,
        ground (arith, mod-lt v c_pos, whole, q-le),
        (new-IsWords 0 (v / c) (omega arith) (omega arith), mod-lt v c_pos, rw same (omega arith)),
      )

  div_by_word :
      (s : U256Muldiv) × (r : ℕ) × (div p (new 0 c) true ≡ ok (s, new 0 r)) × Divided p c s r
  div_by_word = elim (ℕ_discrete p.item3 0) [
    | no top ↦ div_four top
    | yes z ↦ elim (ℕ_discrete p.item2 0) [ no mid ↦ div_three z mid | yes y ↦ div_small z y ]
  ]

try_into_one_word : (r : ℕ) → r < 2 ^ 64 → try_into_u128 (new 0 r) ≡ ok r
unfolding try_into_u128
try_into_one_word r h = ground arith

quotient_unique : (v c q r : ℕ) → r < c → q * c + r ≡ v → (v / c ≡ q) × (v % c ≡ r)
quotient_unique v c q r h e =
    let is_q : v / c ≡ q = div-eq_of_lt-le c (omega arith) (omega arith) in
    let product : c * (v / c) ≡ c * q = ap (λ (t : ℕ). c * t) is_q in
    (is_q, omega (arith, div-add-mod v c))

-- `safe_multiply_divide_result` against its specification: for a divisor of one word it gives the
-- exact quotient and remainder of the 256-bit product, or the error where the quotient does not fit
-- a u128.
pub safe_multiply_divide_result-eq :
    (a b c : ℕ)
    → a < 2 ^ 128
    → b < 2 ^ 128
    → 0 < c
    → c < 2 ^ 64
    → ((a * b / c < 2 ^ 128)
        × (safe_multiply_divide_result a b c
            ≡ ok (record { quotient = a * b / c; remainder = a * b % c })))
      ⊎ ((2 ^ 128 ≤ a * b / c)
          × (safe_multiply_divide_result a b c ≡ err (library library_u256_number_down_cast_error)))
unfolding safe_multiply_divide_result
safe_multiply_divide_result-eq a b c ha hb c_pos cw =
    let p : U256Muldiv = mul_u256 a b in
    let w : IsWords p = mul_u256-IsWords a b ha hb in
    let (s, r, e, d) = div_by_word p c c_pos cw w in
    let (ws, rc, total) = d in
    let (is_q, is_r) = quotient_unique (a * b) c (value s) r rc (total ∙ mul_u256-value a b) in
    let fits = try_into_one_word r (omega arith) in
    let positive : (c == 0) ≡ false = ground arith in
    elim (try_into_u128-value s ws) [
      | inl (l, narrow) ↦ inl (rw is_q l, rw (positive, e, narrow, fits, is_q, is_r))
      | inr (g, wide) ↦ inr (rw is_q g, rw (positive, e, wide))
    ]

-- `safe_multiply_divide` returns nothing but the exact quotient, for a divisor of one word.
pub safe_multiply_divide-eq-ok :
    (a b c : ℕ) {q : ℕ}
    → a < 2 ^ 128
    → b < 2 ^ 128
    → 0 < c
    → c < 2 ^ 64
    → safe_multiply_divide a b c ≡ ok q
    → (q ≡ a * b / c) × (a * b / c < 2 ^ 128)
unfolding safe_multiply_divide
safe_multiply_divide-eq-ok a b c ha hb c_pos cw h =
    elim (safe_multiply_divide_result-eq a b c ha hb c_pos cw) [
      | inl (l, e) ↦ ground arith
      | inr (g, e) ↦ absurd (ground arith)
    ]
