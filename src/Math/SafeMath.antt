-- ===== src/Math/SafeMath.antt =====
-- `SafeMath` (`crates/library/src/math/safe_math.rs`) on the unsigned types, with `CheckedCeilDiv`
-- (`crates/library/src/math/ceil_div.rs`). The first argument is the type's greatest value.
use fluid_solana_programs.Base.{
  ℕ, ◌+◌, ◌-◌, ◌*◌, ◌/◌, ◌%◌, ◌≤◌, ◌<◌, ◌≡◌, ◌≢◌, ◌⊎◌, inl, inr, arith, leb, ◌==◌, if◌then◌else◌,
  Option, none, some,
}
use native.Mathlib.Nat.{div-add-mod}
use fluid_solana_programs.Base.Errors.{library, library_math_error}
use fluid_solana_programs.Base.Result.{Result, ok, err}

-- `Some(result) => Ok(result), None => Err(LibraryMathError)`
abbrev pub or_math_error {ℓ} : {A : Type ℓ} → Option A → Result A
or_math_error none = err (library library_math_error)
or_math_error (some a) = ok a

-- Rust's `checked_add`, `checked_sub`, `checked_mul` and `checked_div` on an unsigned type.
abbrev pub checked_add : ℕ → ℕ → ℕ → Option ℕ
checked_add bound a b = if leb (a + b) bound then some (a + b) else none

abbrev pub checked_sub : ℕ → ℕ → Option ℕ
checked_sub a b = if leb b a then some (a - b) else none

abbrev pub checked_mul : ℕ → ℕ → ℕ → Option ℕ
checked_mul bound a b = if leb (a * b) bound then some (a * b) else none

abbrev pub checked_div : ℕ → ℕ → Option ℕ
checked_div a b = if b == 0 then none else some (a / b)

-- An unsigned remainder and divisor are both positive where the remainder is not zero.
abbrev pub checked_ceil_div : ℕ → ℕ → ℕ → Option ℕ
checked_ceil_div bound a b =
    if b == 0 then none else if a % b == 0 then some (a / b) else checked_add bound (a / b) 1

unfoldable pub safe_add : ℕ → ℕ → ℕ → Result ℕ
safe_add bound a b = or_math_error (checked_add bound a b)

unfoldable pub safe_sub : ℕ → ℕ → Result ℕ
safe_sub a b = or_math_error (checked_sub a b)

unfoldable pub safe_mul : ℕ → ℕ → ℕ → Result ℕ
safe_mul bound a b = or_math_error (checked_mul bound a b)

unfoldable pub safe_div : ℕ → ℕ → Result ℕ
safe_div a b = or_math_error (checked_div a b)

unfoldable pub safe_div_ceil : ℕ → ℕ → ℕ → Result ℕ
safe_div_ceil bound a b = or_math_error (checked_ceil_div bound a b)

-- What each call returns, if it returns.
pub safe_add-eq-ok :
    (bound a b : ℕ) {c : ℕ} → safe_add bound a b ≡ ok c → (c ≡ a + b) × (a + b ≤ bound)
unfolding safe_add
safe_add-eq-ok bound a b h = ground arith

pub safe_sub-eq-ok : (a b : ℕ) {c : ℕ} → safe_sub a b ≡ ok c → (c ≡ a - b) × (b ≤ a)
unfolding safe_sub
safe_sub-eq-ok a b h = ground arith

pub safe_mul-eq-ok :
    (bound a b : ℕ) {c : ℕ} → safe_mul bound a b ≡ ok c → (c ≡ a * b) × (a * b ≤ bound)
unfolding safe_mul
safe_mul-eq-ok bound a b h = ground arith

pub safe_div-eq-ok : (a b : ℕ) {c : ℕ} → safe_div a b ≡ ok c → (c ≡ a / b) × (0 < b)
unfolding safe_div
safe_div-eq-ok a b h = ground arith

-- The two ways in which a ceiling division returns.
abbrev pub IsCeil : ℕ → ℕ → ℕ → Type 0
IsCeil a b c = ((a % b ≡ 0) × (c ≡ a / b)) ⊎ ((a % b ≢ 0) × (c ≡ a / b + 1))

safe_div_ceil_cases :
    (bound a b : ℕ) {c : ℕ} → safe_div_ceil bound a b ≡ ok c → (0 < b) × IsCeil a b c
unfolding safe_div_ceil
safe_div_ceil_cases bound a b h = ground arith

pub IsCeil-bounds : (a b c : ℕ) → 0 < b → IsCeil a b c → (a ≤ c * b) × (c * b < a + b)
IsCeil-bounds a b c p (inl (r, e)) = rw e (grind (arith, div-add-mod a b))
IsCeil-bounds a b c p (inr (r, e)) = rw e (grind (arith, div-add-mod a b))

-- A ceiling division gives the least quotient whose product with `b` reaches `a`.
pub safe_div_ceil-eq-ok :
    (bound a b : ℕ) {c : ℕ}
    → safe_div_ceil bound a b ≡ ok c
    → (a ≤ c * b) × (c * b < a + b) × (0 < b)
safe_div_ceil-eq-ok bound a b {c} h =
    let (p, q) = safe_div_ceil_cases bound a b h in
    let (low, high) = IsCeil-bounds a b c p q in (low, high, p)
