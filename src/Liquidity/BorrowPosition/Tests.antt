-- ===== src/Liquidity/BorrowPosition/Tests.antt =====
-- Runs of `borrow_or_payback`.
use fluid_solana_programs.Base.{ℕ, suc, ◌+◌, ◌*◌, ◌/◌, ◌≤◌, ◌≡◌, refl, ◌⊎◌, arith}
use fluid_solana_programs.Base.Int.{ℤ, pos, negsuc}
use fluid_solana_programs.Base.Result.{Result, ok, err}
use fluid_solana_programs.Math.Casting.{cast, cast_to_signed, cast_to_unsigned}
use fluid_solana_programs.Math.SafeMath
use fluid_solana_programs.Math.Signed
use fluid_solana_programs.Liquidity.Clock.{timestamp, time_since}
use fluid_solana_programs.Liquidity.BorrowPosition
use fluid_solana_programs.Liquidity.BorrowPosition.{UserBorrowPosition, borrow_or_payback}
use fluid_solana_programs.Liquidity.BorrowPosition.Limits.{most, since}
use fluid_solana_programs.Liquidity.BorrowPosition.Safety.{
  borrow_rate_limit, IsCapped, here, next, Run-le-max_debt_ceiling, borrow-payback_no_gain,
}

abbrev position : UserBorrowPosition
position = record {
  protocol = 7;
  mint = 5;
  with_interest = 1;
  amount = 200000000;
  debt_ceiling = 220000000;
  last_update = 1000;
  expand_pct = 2000;
  expand_duration = 86400;
  base_debt_ceiling = 100000000;
  max_debt_ceiling = 900000000;
  status = 0;
}

abbrev stopped : UserBorrowPosition
stopped = record position { status = 1 }

position-IsCapped : IsCapped position
position-IsCapped = record { base_le = omega arith; amount_le = omega arith }

abbrev or_position : Result (ℤ × ℤ × UserBorrowPosition) → ℤ × ℤ × UserBorrowPosition
or_position (ok r) = r
or_position (err e) = (pos 0, pos 0, position)

-- The exchange price of the runs.
abbrev price : ℕ
price = 1020000000000

abbrev more : ℤ × ℤ × UserBorrowPosition
more = or_position (borrow_or_payback (pos 5000) (pos (suc 99999)) price position)

abbrev back : ℤ × ℤ × UserBorrowPosition
back = or_position (borrow_or_payback (pos 6000) (negsuc 99999) price more.2)

more_runs : borrow_or_payback (pos 5000) (pos (suc 99999)) price position ≡ ok more
unfolding cast cast_to_signed cast_to_unsigned timestamp time_since SafeMath.safe_add
    SafeMath.safe_sub SafeMath.safe_mul SafeMath.safe_div Signed.safe_sub Signed.safe_mul
    Signed.safe_div Signed.safe_div_ceil Signed.neg Signed.abs BorrowPosition.borrow_or_payback
    BorrowPosition.set_debt_ceiling BorrowPosition.set_amount BorrowPosition.max_expansion
    BorrowPosition.grow_limit BorrowPosition.calc_borrow_limit_before_operate
    BorrowPosition.calc_borrow_limit_after_operate BorrowPosition.borrow_raw
    BorrowPosition.payback_raw BorrowPosition.apply_amount
more_runs = refl

back_runs : borrow_or_payback (pos 6000) (negsuc 99999) price more.2 ≡ ok back
unfolding cast cast_to_signed cast_to_unsigned timestamp time_since SafeMath.safe_add
    SafeMath.safe_sub SafeMath.safe_mul SafeMath.safe_div Signed.safe_sub Signed.safe_mul
    Signed.safe_div Signed.safe_div_ceil Signed.neg Signed.abs BorrowPosition.borrow_or_payback
    BorrowPosition.set_debt_ceiling BorrowPosition.set_amount BorrowPosition.max_expansion
    BorrowPosition.grow_limit BorrowPosition.calc_borrow_limit_before_operate
    BorrowPosition.calc_borrow_limit_after_operate BorrowPosition.borrow_raw
    BorrowPosition.payback_raw BorrowPosition.apply_amount
back_runs = refl

-- A payback to the first position.
abbrev less : ℤ × ℤ × UserBorrowPosition
less = or_position (borrow_or_payback (pos 6000) (negsuc 99999) price position)

less_runs : borrow_or_payback (pos 6000) (negsuc 99999) price position ≡ ok less
unfolding cast cast_to_signed cast_to_unsigned timestamp time_since SafeMath.safe_add
    SafeMath.safe_sub SafeMath.safe_mul SafeMath.safe_div Signed.safe_sub Signed.safe_mul
    Signed.safe_div Signed.safe_div_ceil Signed.neg Signed.abs BorrowPosition.borrow_or_payback
    BorrowPosition.set_debt_ceiling BorrowPosition.set_amount BorrowPosition.max_expansion
    BorrowPosition.grow_limit BorrowPosition.calc_borrow_limit_before_operate
    BorrowPosition.calc_borrow_limit_after_operate BorrowPosition.borrow_raw
    BorrowPosition.payback_raw BorrowPosition.apply_amount
less_runs = refl

borrow_rate_limit_example :
    (more.2.amount ≤ 100000000)
    ⊎ ((more.2.amount ≤ 900000000)
        × (more.2.amount ≤ 200000000 + most position 200000000)
        × (more.2.amount ≤ 220000000 + most position 200000000 * since (pos 5000) position / 86400))
borrow_rate_limit_example = borrow_rate_limit (pos 5000) 99999 price position more_runs

Run-le-max_debt_ceiling_example : IsCapped back.2 × (back.2.max_debt_ceiling ≡ 900000000)
Run-le-max_debt_ceiling_example =
    Run-le-max_debt_ceiling {p = position} {q = back.2} position-IsCapped (
      next (pos 6000) (negsuc 99999) price back.0 back.1
        (next (pos 5000) (pos (suc 99999)) price more.0 more.1 here more_runs) back_runs)

borrow-payback_no_gain_example : 200000000 ≤ back.2.amount
borrow-payback_no_gain_example =
    borrow-payback_no_gain (pos 5000) (pos 6000) 99999 price position more.2 back.2 more.0 more.1
      back.0 back.1 refl more_runs back_runs
