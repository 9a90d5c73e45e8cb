-- ===== src/Liquidity/BorrowPosition/Amounts.antt =====
-- What `borrow_or_payback` does to the amount of a position, and how it rounds.
use fluid_solana_programs.Base.{ℕ, suc, ◌+◌, ◌*◌, ◌/◌, ◌^◌, ◌≤◌, ◌<◌, ◌≡◌, ◌≢◌, arith, false}
use fluid_solana_programs.Base.Int.{ℤ, pos, negsuc, neg_ℤ, nat_abs, is_pos}
use fluid_solana_programs.Base.Result.{ok}
use fluid_solana_programs.Math.Words.{i128_max}
use fluid_solana_programs.Math.Casting.{cast_to_signed, cast_to_unsigned}
use fluid_solana_programs.Math.SafeMath
use fluid_solana_programs.Math.Signed
use fluid_solana_programs.Liquidity.BorrowPosition.{
  UserBorrowPosition, borrow_raw, payback_raw, move_free, apply_amount,
}

-- A borrow of `suc n` with interest: the raw amount is rounded up, and it is added.
abbrev pub Borrowed : ℕ → ℕ → ℕ → ℤ → ℤ → ℕ → Type 0
Borrowed n price before raw free after =
    (raw ≡ pos (nat_abs raw))
    × (free ≡ pos 0)
    × (after ≡ before + nat_abs raw)
    × (suc n * 10 ^ 12 ≤ nat_abs raw * price)
    × (nat_abs raw * price < suc n * 10 ^ 12 + price)

-- A payback of `suc n` with interest: the raw amount is rounded down, and it is taken off.
abbrev pub PaidBack : ℕ → ℕ → ℕ → ℤ → ℤ → ℕ → Type 0
PaidBack n price before raw free after =
    (raw ≡ neg_ℤ (pos (suc n * 10 ^ 12 / price)))
    × (free ≡ pos 0)
    × (after + suc n * 10 ^ 12 / price ≡ before)
    × (0 < suc n * 10 ^ 12 / price)

module _ (n price : ℕ) (p : UserBorrowPosition) (before : ℕ) {raw free : ℤ} {after : ℕ} where
  pub apply_borrow :
      p.with_interest ≡ 1
      → apply_amount (pos (suc n)) price p before ≡ ok (raw, free, after)
      → Borrowed n price before raw free after
  unfolding apply_amount borrow_raw cast_to_signed cast_to_unsigned SafeMath.safe_add
      Signed.safe_mul
  apply_borrow mode h =
      ground (arith, Signed.safe_div_ceil-Ensures i128_max (suc n * 10 ^ 12) price)

  pub apply_payback :
      p.with_interest ≡ 1
      → apply_amount (negsuc n) price p before ≡ ok (raw, free, after)
      → PaidBack n price before raw free after
  unfolding apply_amount payback_raw cast_to_signed cast_to_unsigned SafeMath.safe_sub
      Signed.safe_mul Signed.safe_div Signed.abs
  apply_payback mode h = ground arith

  pub apply_borrow_free :
      p.with_interest ≢ 1
      → apply_amount (pos (suc n)) price p before ≡ ok (raw, free, after)
      → (raw ≡ pos 0) × (free ≡ pos (suc n)) × (after ≡ before + suc n)
  unfolding apply_amount move_free cast_to_unsigned SafeMath.safe_add
  apply_borrow_free mode h = ground arith

  pub apply_payback_free :
      p.with_interest ≢ 1
      → apply_amount (negsuc n) price p before ≡ ok (raw, free, after)
      → (raw ≡ pos 0) × (free ≡ negsuc n) × (after + suc n ≡ before)
  unfolding apply_amount move_free cast_to_unsigned SafeMath.safe_sub Signed.abs
  apply_payback_free mode h = ground arith

  -- A call with a negative amount, or with none, adds nothing.
  pub apply_shrinks :
      (a : ℤ)
      → is_pos a ≡ false
      → apply_amount a price p before ≡ ok (raw, free, after)
      → after ≤ before
  unfolding apply_amount payback_raw move_free cast_to_signed cast_to_unsigned SafeMath.safe_sub
      Signed.safe_mul Signed.safe_div Signed.abs
  apply_shrinks (pos m) e h = ground arith
  apply_shrinks (negsuc m) e h = ground arith
