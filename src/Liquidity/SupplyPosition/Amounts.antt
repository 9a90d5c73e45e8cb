-- ===== src/Liquidity/SupplyPosition/Amounts.antt =====
-- What `supply_or_withdraw` does to the amount of a position, and how it rounds.
use fluid_solana_programs.Base.{ℕ, zero, suc, ◌+◌, ◌*◌, ◌/◌, ◌^◌, ◌≤◌, ◌<◌, ◌≡◌, ◌≢◌, arith}
use fluid_solana_programs.Base.Int.{ℤ, pos, negsuc, neg_ℤ, nat_abs}
use fluid_solana_programs.Base.Result.{ok, Ensures}
use fluid_solana_programs.Math.Words.{i128_max}
use fluid_solana_programs.Math.Casting.{cast_to_signed, cast_to_unsigned}
use fluid_solana_programs.Math.SafeMath
use fluid_solana_programs.Math.Signed
use fluid_solana_programs.Liquidity.SupplyPosition.{
  UserSupplyPosition, deposit_raw, withdraw_raw, move_free, apply_amount,
}

zero_ceil :
    (price : ℕ) → Ensures (λ c. c ≡ pos 0) (Signed.safe_div_ceil i128_max (pos 0) (pos price))
unfolding Signed.safe_div_ceil
zero_ceil price = ground arith

-- A supply of `suc n` with interest: the raw amount is rounded down, and it is added.
abbrev pub Supplied : ℕ → ℕ → ℕ → ℤ → ℤ → ℕ → Type 0
Supplied n price before raw free after =
    (raw ≡ pos (suc n * 10 ^ 12 / price))
    × (free ≡ pos 0)
    × (after ≡ before + suc n * 10 ^ 12 / price)
    × (0 < suc n * 10 ^ 12 / price)

-- A withdrawal of `suc n` with interest: the raw amount is rounded up, and it is taken off.
abbrev pub Withdrawn : ℕ → ℕ → ℕ → ℤ → ℤ → ℕ → Type 0
Withdrawn n price before raw free after =
    (raw ≡ neg_ℤ (pos (nat_abs raw)))
    × (free ≡ pos 0)
    × (after + nat_abs raw ≡ before)
    × (suc n * 10 ^ 12 ≤ nat_abs raw * price)
    × (nat_abs raw * price < suc n * 10 ^ 12 + price)

module _ (n price : ℕ) (p : UserSupplyPosition) (before : ℕ) {raw free : ℤ} {after : ℕ} where
  pub apply_supply :
      p.with_interest ≡ 1
      → apply_amount (pos (suc n)) price p before ≡ ok (raw, free, after)
      → Supplied n price before raw free after
  unfolding apply_amount deposit_raw cast_to_signed cast_to_unsigned SafeMath.safe_add
      Signed.safe_mul Signed.safe_div
  apply_supply mode h = ground arith

  pub apply_withdraw :
      p.with_interest ≡ 1
      → apply_amount (negsuc n) price p before ≡ ok (raw, free, after)
      → Withdrawn n price before raw free after
  unfolding apply_amount withdraw_raw cast_to_signed cast_to_unsigned SafeMath.safe_sub
      Signed.safe_mul Signed.abs Signed.neg
  apply_withdraw mode h =
      ground (arith, Signed.safe_div_ceil-Ensures i128_max (suc n * 10 ^ 12) price)

  pub apply_supply_free :
      p.with_interest ≢ 1
      → apply_amount (pos (suc n)) price p before ≡ ok (raw, free, after)
      → (raw ≡ pos 0) × (free ≡ pos (suc n)) × (after ≡ before + suc n)
  unfolding apply_amount move_free cast_to_unsigned SafeMath.safe_add
  apply_supply_free mode h = ground arith

  pub apply_withdraw_free :
      p.with_interest ≢ 1
      → apply_amount (negsuc n) price p before ≡ ok (raw, free, after)
      → (raw ≡ pos 0) × (free ≡ negsuc n) × (after + suc n ≡ before)
  unfolding apply_amount move_free cast_to_unsigned SafeMath.safe_sub Signed.abs
  apply_withdraw_free mode h = ground arith

  -- A call with a positive amount, or with none, takes nothing off.
  pub apply_grows :
      (m : ℕ) → apply_amount (pos m) price p before ≡ ok (raw, free, after) → before ≤ after
  unfolding apply_amount deposit_raw withdraw_raw move_free cast_to_signed cast_to_unsigned
      SafeMath.safe_add SafeMath.safe_sub Signed.safe_mul Signed.safe_div Signed.abs Signed.neg
  apply_grows zero h = ground (arith, zero_ceil price)
  apply_grows (suc m) h = ground arith
