-- ===== src/Math/Signed.antt =====
-- `SafeMath` (`crates/library/src/math/safe_math.rs`) and `CheckedCeilDiv`
-- (`crates/library/src/math/ceil_div.rs`) on the signed types. The first argument is the type's
-- greatest value; its least value is one further below zero.
use fluid_solana_programs.Base.{
  ℕ, suc, ◌+◌, ◌*◌, ◌/◌, ◌%◌, ◌≤◌, ◌<◌, ◌≡◌, ◌≢◌, ◌⊎◌, inl, inr, arith, leb, ◌==◌, if◌then◌else◌,
  Bool, true, false, not, ◌&&◌, Option, none, some, refl,
}
use fluid_solana_programs.Base.Int.{
  ℤ, pos, negsuc, ◌+ℤ◌, ◌-ℤ◌, ◌*ℤ◌, tdiv, trem, neg_ℤ, is_pos, nat_abs,
}
use fluid_solana_programs.Base.Errors.{panic, library, library_math_error}
use fluid_solana_programs.Base.Result.{Result, ok, err, Ensures}
use fluid_solana_programs.Math.SafeMath.{or_math_error, IsCeil-bounds}
use fluid_solana_programs.Math.Words.{i128_max}

abbrev pub in_range : ℕ → ℤ → Bool
in_range bound (pos n) = leb n bound
in_range bound (negsuc n) = leb n bound

-- A `checked_…` call: the exact result, where the type can hold it.
abbrev pub checked : ℕ → ℤ → Option ℤ
checked bound a = if in_range bound a then some a else none

abbrev pub is_zero : ℤ → Bool
is_zero (pos n) = n == 0
is_zero (negsuc n) = 1 == 0

abbrev pub bool_eq : Bool → Bool → Bool
bool_eq true b = b
bool_eq false b = not b

-- Rust's `checked_div`: `none` on a zero divisor and where the quotient overflows.
abbrev pub checked_div : ℕ → ℤ → ℤ → Option ℤ
checked_div bound a b = if is_zero b then none else checked bound (tdiv a b)

-- The quotient goes up by one where there is a remainder with the sign of the divisor.
abbrev round_up : ℕ → ℤ → ℤ → Option ℤ → Option ℤ
round_up bound r b none = none
round_up bound r b (some q) =
    if not (is_zero r) && bool_eq (is_pos r) (is_pos b) then checked bound (q +ℤ pos 1) else some q

abbrev pub checked_ceil_div : ℕ → ℤ → ℤ → Option ℤ
checked_ceil_div bound a b = round_up bound (trem a b) b (checked_div bound a b)

unfoldable pub safe_add : ℕ → ℤ → ℤ → Result ℤ
unfolding ◌+ℤ◌
safe_add bound a b = or_math_error (checked bound (a +ℤ b))

unfoldable pub safe_sub : ℕ → ℤ → ℤ → Result ℤ
unfolding ◌-ℤ◌
safe_sub bound a b = or_math_error (checked bound (a -ℤ b))

unfoldable pub safe_mul : ℕ → ℤ → ℤ → Result ℤ
unfolding ◌*ℤ◌
safe_mul bound a b = or_math_error (checked bound (a *ℤ b))

unfoldable pub safe_div : ℕ → ℤ → ℤ → Result ℤ
unfolding tdiv
safe_div bound a b = or_math_error (checked_div bound a b)

unfoldable pub safe_div_ceil : ℕ → ℤ → ℤ → Result ℤ
unfolding tdiv trem ◌+ℤ◌
safe_div_ceil bound a b = or_math_error (checked_ceil_div bound a b)

-- `-a` and `a.abs()` panic where the result overflows.
unfoldable pub neg : ℕ → ℤ → Result ℤ
neg bound a = if in_range bound (neg_ℤ a) then ok (neg_ℤ a) else err panic

unfoldable pub abs : ℕ → ℤ → Result ℤ
abs bound a = if leb (nat_abs a) bound then ok (pos (nat_abs a)) else err panic

-- Non-negative arguments: the calls agree with those on the unsigned types.
pub safe_mul_pos :
    (bound a b : ℕ) {c : ℤ}
    → safe_mul bound (pos a) (pos b) ≡ ok c
    → (c ≡ pos (a * b)) × (a * b ≤ bound)
unfolding safe_mul
safe_mul_pos bound a b h = ground arith

pub safe_div_pos :
    (bound a b : ℕ) {c : ℤ} → safe_div bound (pos a) (pos b) ≡ ok c → (c ≡ pos (a / b)) × (0 < b)
unfolding safe_div
safe_div_pos bound a b h = ground arith

pub safe_div_negsuc :
    (bound a b : ℕ) {c : ℤ}
    → safe_div bound (negsuc a) (pos b) ≡ ok c
    → (c ≡ neg_ℤ (pos (suc a / b))) × (0 < b)
unfolding safe_div
safe_div_negsuc bound a b h = ground arith

safe_div_ceil_pos_cases :
    (bound a b : ℕ) {c : ℤ}
    → safe_div_ceil bound (pos a) (pos b) ≡ ok c
    → (0 < b) × (((a % b ≡ 0) × (c ≡ pos (a / b))) ⊎ ((a % b ≢ 0) × (c ≡ pos (a / b + 1))))
unfolding safe_div_ceil
safe_div_ceil_pos_cases bound a b h = ground arith

pub safe_div_ceil_pos :
    (bound a b : ℕ) {c : ℤ}
    → safe_div_ceil bound (pos a) (pos b) ≡ ok c
    → (q : ℕ) × (c ≡ pos q) × (a ≤ q * b) × (q * b < a + b) × (0 < b)
safe_div_ceil_pos bound a b h = go (safe_div_ceil_pos_cases bound a b h)
  where
    go :
        {c : ℤ}
        → (0 < b) × (((a % b ≡ 0) × (c ≡ pos (a / b))) ⊎ ((a % b ≢ 0) × (c ≡ pos (a / b + 1))))
        → (q : ℕ) × (c ≡ pos q) × (a ≤ q * b) × (q * b < a + b) × (0 < b)
    go (p, inl (r, e)) =
        let (low, high) = IsCeil-bounds a b (a / b) p (inl (r, refl)) in (a / b, e, low, high, p)
    go (p, inr (r, e)) =
        let (low, high) = IsCeil-bounds a b (a / b + 1) p (inr (r, refl)) in
        (a / b + 1, e, low, high, p)

-- The same as a postcondition, for a proof that splits on the result.
pub safe_div_ceil-Ensures :
    (bound a b : ℕ)
    → Ensures
        (λ c. (c ≡ pos (nat_abs c)) × (a ≤ nat_abs c * b) × (nat_abs c * b < a + b))
        (safe_div_ceil bound (pos a) (pos b))
safe_div_ceil-Ensures bound a b = go (safe_div_ceil bound (pos a) (pos b)) refl
  where
    go :
        (r : Result ℤ)
        → safe_div_ceil bound (pos a) (pos b) ≡ r
        → Ensures (λ c. (c ≡ pos (nat_abs c)) × (a ≤ nat_abs c * b) × (nat_abs c * b < a + b)) r
    go (err _) e = tt
    go (ok c) e =
        let (q, is_q, low, high, p) = safe_div_ceil_pos bound a b e in rw is_q (refl, low, high)

test_ceil_div_neg : safe_div_ceil i128_max (negsuc 4) (pos 2) ≡ ok (negsuc 1)
unfolding safe_div_ceil
test_ceil_div_neg = refl

test_ceil_div_pos : safe_div_ceil i128_max (pos 5) (pos 2) ≡ ok (pos 3)
unfolding safe_div_ceil
test_ceil_div_pos = refl

test_div_overflow :
    safe_div i128_max (negsuc i128_max) (negsuc 0) ≡ err (library library_math_error)
unfolding safe_div
test_div_overflow = refl
