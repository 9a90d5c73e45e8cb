-- ===== src/Math/U256/Division.antt =====
-- `U256Muldiv::div` and `div_loop`: short division by one word, else Knuth's algorithm D.
use fluid_solana_programs.Base.{
  ℕ, zero, suc, ◌+◌, ◌-◌, ◌*◌, ◌/◌, ◌%◌, ◌^◌, ltb, leb, ◌==◌, if◌then◌else◌, not, ◌&&◌,
}
use fluid_solana_programs.Base.Errors.{panic}
use fluid_solana_programs.Base.Result.{Result, ok, err, ◌>>=◌, ◌>>◌, fail_if}
use fluid_solana_programs.Math.U256.{U256Muldiv, word, lo, hi, hi_lo, get_word, update_word}

-- Rust's `wrapping_sub`, `wrapping_add` and `wrapping_mul` on a u128.
abbrev u128 : ℕ
u128 = 2 ^ 128

abbrev wrapping_sub : ℕ → ℕ → ℕ
wrapping_sub a b = (a + u128 - b) % u128

abbrev wrapping_add : ℕ → ℕ → ℕ
wrapping_add a b = (a + b) % u128

abbrev wrapping_mul : ℕ → ℕ → ℕ
wrapping_mul a b = a * b % u128

-- Checked operations on a u128: `overflow-checks = true`.
abbrev sub_or_panic : ℕ → ℕ → Result ℕ
sub_or_panic a b = if leb b a then ok (a - b) else err panic

abbrev bounded_or_panic : ℕ → Result ℕ
bounded_or_panic a = if ltb a u128 then ok a else err panic

-- The `while` loop that corrects `qhat`, on fuel: each round adds `d1` to `rhat`, which ends the
-- loop when it reaches 2^64. The divisor is normalized, so `d1` is at least 2^63.
adjust : ℕ → ℕ → ℕ → ℕ → ℕ → ℕ → ℕ → Result ℕ
adjust zero d1 d1_2 qhat rhat cmp1 cmp2 = err panic
adjust (suc fuel) d1 d1_2 qhat rhat cmp1 cmp2 =
    let rest = λ (q r c : ℕ). adjust fuel d1 d1_2 q r (hi_lo (lo r) (lo cmp1)) c in
    if hi qhat == 0 && leb cmp2 cmp1 then ok qhat else (do
      q ← sub_or_panic qhat 1
      r ← bounded_or_panic (rhat + d1)
      if not (hi r == 0) then ok q else (do c ← sub_or_panic cmp2 d1_2; rest q r c))

-- Two rounds bring `rhat` past 2^64, and the third call ends.
abbrev adjust_fuel : ℕ
adjust_fuel = 3

-- `for i in 0..num_divisor_words`: subtract `qhat * divisor` from the dividend, with the borrow `k`.
subtract : ℕ → ℕ → ℕ → ℕ → U256Muldiv → ℕ → U256Muldiv → Result (U256Muldiv × ℕ)
subtract zero i index qhat divisor k dividend = ok (dividend, k)
subtract (suc n) i index qhat divisor k dividend = do
  p ← bounded_or_panic (qhat * get_word divisor i)
  let t = wrapping_sub (wrapping_sub (get_word dividend (index + i)) k) (lo p)
  subtract n (i + 1) index qhat divisor ((hi p + word - hi t) % word)
      (update_word dividend (index + i) (lo t))

-- `for i in 0..num_divisor_words`: add the divisor back, with the carry `k`.
add_back : ℕ → ℕ → ℕ → U256Muldiv → ℕ → U256Muldiv → U256Muldiv × ℕ
add_back zero i index divisor k dividend = (dividend, k)
add_back (suc n) i index divisor k dividend =
    let t = wrapping_add (wrapping_add (get_word dividend (index + i)) (get_word divisor i)) k in
    add_back n (i + 1) index divisor (hi t) (update_word dividend (index + i) (lo t))

-- One digit of the quotient: the dividend, the carry space and the quotient after the step. Reading
-- `items[4]` is a panic: the correction step does so where the carry space is in use.
unfoldable pub div_loop :
    ℕ → ℕ → U256Muldiv → ℕ → U256Muldiv → U256Muldiv → Result (U256Muldiv × ℕ × U256Muldiv)
unfolding adjust subtract add_back
div_loop index n dividend carry_space divisor quotient =
    let use_carry = index + n == 4 in
    let div_hi = if use_carry then carry_space else get_word dividend (index + n) in
    let d0 = hi_lo div_hi (get_word dividend (index + n - 1)) in
    let d1 = get_word divisor (n - 1) in
    let qhat0 = d0 / d1 in
    let rhat0 = d0 - d1 * qhat0 in
    let d0_2 = get_word dividend (index + n - 2) in
    let d1_2 = get_word divisor (n - 2) in
    do
      qhat ←
          adjust adjust_fuel d1 d1_2 qhat0 rhat0 (hi_lo (lo rhat0) d0_2) (wrapping_mul qhat0 d1_2)
      (taken, k) ← subtract n 0 index qhat divisor 0 dividend
      let d_head = if use_carry then carry_space else get_word taken (index + n)
      let t = wrapping_sub d_head k
      let space = if use_carry then lo t else carry_space
      let rest = if use_carry then taken else update_word taken (index + n) (lo t)
      if ltb d_head k
          then (do
            fail_if use_carry panic
            q ← sub_or_panic qhat 1
            let (restored, c) = add_back n 0 index divisor 0 rest
            let head = lo (wrapping_add (get_word restored (index + n)) c)
            ok (update_word restored (index + n) head, space, update_word quotient index (lo q)))
          else ok (rest, space, update_word quotient index (lo qhat))
