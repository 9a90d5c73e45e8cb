-- ===== src/Liquidity/SupplyPosition/Tests.antt =====
-- Runs of `supply_or_withdraw`.
use fluid_solana_programs.Base.{ℕ, suc, ◌+◌, ◌*◌, ◌/◌, ◌≤◌, ◌≡◌, refl, arith}
use fluid_solana_programs.Base.Int.{ℤ, pos, negsuc}
use fluid_solana_programs.Base.Result.{Result, ok, err}
use fluid_solana_programs.Math.Casting.{cast, cast_to_signed, cast_to_unsigned}
use fluid_solana_programs.Math.SafeMath
use fluid_solana_programs.Math.Signed
use fluid_solana_programs.Liquidity.Clock.{timestamp, time_since}
use fluid_solana_programs.Liquidity.SupplyPosition
use fluid_solana_programs.Liquidity.SupplyPosition.{UserSupplyPosition, supply_or_withdraw}
use fluid_solana_programs.Liquidity.SupplyPosition.Limits.{most, since}
use fluid_solana_programs.Liquidity.SupplyPosition.Safety.{
  withdraw_rate_limit, supply-withdraw_no_gain,
}

abbrev position : UserSupplyPosition
position = record {
  protocol = 7;
  mint = 5;
  with_interest = 1;
  amount = 1000000000;
  withdrawal_limit = 900000000;
  last_update = 1000;
  expand_pct = 2000;
  expand_duration = 86400;
  base_withdrawal_limit = 100000000;
  status = 0;
}

abbrev stopped : UserSupplyPosition
stopped = record position { status = 1 }

abbrev or_position : Result (ℤ × ℤ × UserSupplyPosition) → ℤ × ℤ × UserSupplyPosition
or_position (ok r) = r
or_position (err e) = (pos 0, pos 0, position)

-- The exchange price of the runs.
abbrev price : ℕ
price = 1010000000000

abbrev more : ℤ × ℤ × UserSupplyPosition
more = or_position (supply_or_withdraw (pos 5000) (pos (suc 99999)) price position)

abbrev back : ℤ × ℤ × UserSupplyPosition
back = or_position (supply_or_withdraw (pos 6000) (negsuc 99999) price more.2)

more_runs : supply_or_withdraw (pos 5000) (pos (suc 99999)) price position ≡ ok more
unfolding cast cast_to_signed cast_to_unsigned timestamp time_since SafeMath.safe_add
    SafeMath.safe_sub SafeMath.safe_mul SafeMath.safe_div Signed.safe_sub Signed.safe_mul
    Signed.safe_div Signed.safe_div_ceil Signed.neg Signed.abs SupplyPosition.supply_or_withdraw
    SupplyPosition.set_withdrawal_limit SupplyPosition.set_amount SupplyPosition.max_withdrawable
    SupplyPosition.calc_withdrawal_limit_before_operate
    SupplyPosition.calc_withdrawal_limit_after_operate SupplyPosition.deposit_raw
    SupplyPosition.withdraw_raw SupplyPosition.apply_amount
more_runs = refl

back_runs : supply_or_withdraw (pos 6000) (negsuc 99999) price more.2 ≡ ok back
unfolding cast cast_to_signed cast_to_unsigned timestamp time_since SafeMath.safe_add
    SafeMath.safe_sub SafeMath.safe_mul SafeMath.safe_div Signed.safe_sub Signed.safe_mul
    Signed.safe_div Signed.safe_div_ceil Signed.neg Signed.abs SupplyPosition.supply_or_withdraw
    SupplyPosition.set_withdrawal_limit SupplyPosition.set_amount SupplyPosition.max_withdrawable
    SupplyPosition.calc_withdrawal_limit_before_operate
    SupplyPosition.calc_withdrawal_limit_after_operate SupplyPosition.deposit_raw
    SupplyPosition.withdraw_raw SupplyPosition.apply_amount
back_runs = refl

-- A withdrawal from the first position.
abbrev less : ℤ × ℤ × UserSupplyPosition
less = or_position (supply_or_withdraw (pos 6000) (negsuc 99999) price position)

less_runs : supply_or_withdraw (pos 6000) (negsuc 99999) price position ≡ ok less
unfolding cast cast_to_signed cast_to_unsigned timestamp time_since SafeMath.safe_add
    SafeMath.safe_sub SafeMath.safe_mul SafeMath.safe_div Signed.safe_sub Signed.safe_mul
    Signed.safe_div Signed.safe_div_ceil Signed.neg Signed.abs SupplyPosition.supply_or_withdraw
    SupplyPosition.set_withdrawal_limit SupplyPosition.set_amount SupplyPosition.max_withdrawable
    SupplyPosition.calc_withdrawal_limit_before_operate
    SupplyPosition.calc_withdrawal_limit_after_operate SupplyPosition.deposit_raw
    SupplyPosition.withdraw_raw SupplyPosition.apply_amount
less_runs = refl

withdraw_rate_limit_example :
    (1000000000 ≤ less.2.amount + most position 1000000000)
    × (900000000 ≤ less.2.amount + most position 1000000000 * since (pos 6000) position / 86400)
withdraw_rate_limit_example =
    withdraw_rate_limit (pos 6000) 99999 price position (omega arith) less_runs

supply-withdraw_no_gain_example : back.2.amount ≤ 1000000000
supply-withdraw_no_gain_example =
    supply-withdraw_no_gain (pos 5000) (pos 6000) 99999 price position more.2 back.2 more.0 more.1
      back.0 back.1 refl more_runs back_runs
