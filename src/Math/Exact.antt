-- ===== src/Math/Exact.antt =====
-- The calls of `SafeMath` and `Cast` that do not overflow return the exact result. A negative
-- integer is written `minus n` here.
use fluid_solana_programs.Base.{ℕ, zero, suc, ◌+◌, ◌-◌, ◌*◌, ◌/◌, ◌≤◌, ◌<◌, ◌≡◌, arith}
use native.Mathlib.Nat.{div-le_self}
use fluid_solana_programs.Base.Int.{ℤ, pos, negsuc, sub_ℕ}
use fluid_solana_programs.Base.Result.{ok}
use fluid_solana_programs.Math.Casting.{cast_to_signed, cast_to_unsigned}
use fluid_solana_programs.Math.SafeMath
use fluid_solana_programs.Math.Signed

unfoldable pub minus : ℕ → ℤ
minus zero = pos 0
minus (suc n) = negsuc n

-- a - b, of either sign.
unfoldable pub difference : ℕ → ℕ → ℤ
difference a b = sub_ℕ a b

pub cast_to_signed-le : (bound n : ℕ) → n ≤ bound → cast_to_signed bound n ≡ ok (pos n)
unfolding cast_to_signed
cast_to_signed-le bound n h = ground arith

pub cast_to_unsigned-le : (bound n : ℕ) → n ≤ bound → cast_to_unsigned bound (pos n) ≡ ok n
unfolding cast_to_unsigned
cast_to_unsigned-le bound n h = ground arith

pub safe_sub-le : (a b : ℕ) → b ≤ a → SafeMath.safe_sub a b ≡ ok (a - b)
unfolding SafeMath.safe_sub
safe_sub-le a b h = ground arith

module _ (bound : ℕ) where
  pub sub_rising :
      (a b : ℕ) → b ≤ a → a ≤ bound → Signed.safe_sub bound (pos a) (pos b) ≡ ok (pos (a - b))
  unfolding Signed.safe_sub
  sub_rising a b h l = ground arith

  pub sub_falling :
      (a b : ℕ) → a < b → b ≤ bound → Signed.safe_sub bound (pos a) (pos b) ≡ ok (minus (b - a))
  unfolding Signed.safe_sub minus
  sub_falling a b h l = ground arith

  pub mul_pos : (a b : ℕ) → a * b ≤ bound → Signed.safe_mul bound (pos a) (pos b) ≡ ok (pos (a * b))
  unfolding Signed.safe_mul
  mul_pos a b h = ground arith

  pub mul_minus :
      (a b : ℕ) → a * b ≤ bound → Signed.safe_mul bound (minus a) (pos b) ≡ ok (minus (a * b))
  unfolding Signed.safe_mul minus
  mul_minus zero b h = ground arith
  mul_minus (suc a) b h = ground arith

  pub div_pos :
      (a b : ℕ) → a ≤ bound → 0 < b → Signed.safe_div bound (pos a) (pos b) ≡ ok (pos (a / b))
  unfolding Signed.safe_div
  div_pos a b l h = ground (arith, div-le_self a b)

  pub div_minus :
      (a b : ℕ) → a ≤ bound → 0 < b → Signed.safe_div bound (minus a) (pos b) ≡ ok (minus (a / b))
  unfolding Signed.safe_div minus
  div_minus zero b l h = ground (arith, div-le_self 0 b)
  div_minus (suc a) b l h = ground (arith, div-le_self (suc a) b)

  pub sub_minus :
      (a b : ℕ) → a + b ≤ bound → Signed.safe_sub bound (pos a) (minus b) ≡ ok (pos (a + b))
  unfolding Signed.safe_sub minus
  sub_minus a zero h = ground arith
  sub_minus a (suc b) h = ground arith

  pub add_minus :
      (a b : ℕ) → a ≤ b → b ≤ bound → Signed.safe_add bound (minus a) (pos b) ≡ ok (pos (b - a))
  unfolding Signed.safe_add minus
  add_minus zero b h l = ground arith
  add_minus (suc a) b h l = ground arith

  pub sub_any :
      (a b : ℕ)
      → a ≤ bound
      → b ≤ bound
      → Signed.safe_sub bound (pos a) (pos b) ≡ ok (difference a b)
  unfolding Signed.safe_sub difference
  sub_any a b h l = ground arith

  pub add_difference :
      (p a b : ℕ)
      → b ≤ p + a
      → p + a ≤ bound + b
      → Signed.safe_add bound (pos p) (difference a b) ≡ ok (pos (p + a - b))
  unfolding Signed.safe_add difference
  add_difference p a b h l = ground arith
