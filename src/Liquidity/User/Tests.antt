-- ===== src/Liquidity/User/Tests.antt =====
-- Runs of `operate` and `claim_tokens` on a reserve with one protocol.
use fluid_solana_programs.Base.{
  ℕ, suc, ◌+◌, ◌*◌, ◌≤◌, ◌<◌, ◌≡◌, refl, ◌⊎◌, Option, none, some, arith,
}
use fluid_solana_programs.Base.Int.{pos, negsuc, pos_part, neg_part}
use fluid_solana_programs.Base.Result.{ok}
use fluid_solana_programs.Math.Casting.{cast, cast_to_signed, cast_to_unsigned}
use fluid_solana_programs.Math.SafeMath
use fluid_solana_programs.Math.Signed
use fluid_solana_programs.Math.U256.{mul_u256, num_words, try_into_u128}
use fluid_solana_programs.Math.U256.MulDiv.{
  safe_multiply_divide, safe_multiply_divide_result, div, short_division, small_division,
  normalized_division,
}
use fluid_solana_programs.Math.U256.Division.{div_loop}
use fluid_solana_programs.Math.U256.Shift.{shift_left, shift_right, leading_zeros}
use fluid_solana_programs.Liquidity.Constants.{four_decimals}
use fluid_solana_programs.Liquidity.Clock.{timestamp, time_since}
use fluid_solana_programs.Liquidity.RateModel.{
  calc_borrow_rate_from_utilization, calc_rate_v1, get_rate,
}
use fluid_solana_programs.Liquidity.SupplyPosition
use fluid_solana_programs.Liquidity.SupplyPosition.{UserSupplyPosition}
use fluid_solana_programs.Liquidity.BorrowPosition
use fluid_solana_programs.Liquidity.BorrowPosition.{UserBorrowPosition}
use fluid_solana_programs.Liquidity.TokenReserve.{
  moved_total, set_new_total_supply_with_interest, set_new_total_borrow_with_interest,
  reduce_claim_amount,
}
use fluid_solana_programs.Liquidity.TokenReserve.Prices.{
  get_with_interest_vs_free_ratio, grown_borrow_price, utilization_yield, paying_borrowers,
  grown_supply_price, supply_price_at, next_supply_price, new_prices, calculate_exchange_prices,
}
use fluid_solana_programs.Liquidity.TokenReserve.Utilization.{
  check_scaled_amount_overflow, calc_utilization,
}
use fluid_solana_programs.Liquidity.TokenReserve.Totals.{scaled_supply, scaled_borrow}
use fluid_solana_programs.Liquidity.Claim.{
  Accounts, direct, transfer_spl_tokens, hand_over, handle_transfer_or_claim, pay,
}
use fluid_solana_programs.Liquidity.User.{
  pre_operate, check_amounts, operate_amount_in, check_deposit, store_supply, supply_step,
  store_borrow, borrow_step, update_rates, pay_withdrawal, pay_borrowing, pay_withdrawn,
  pay_borrowed, pay_out, returned_prices, operate, claim_tokens,
}
use fluid_solana_programs.Liquidity.User.Payout.{IsCovered, claim-pays}
use fluid_solana_programs.Liquidity.TokenReserve.Growth.{IsAccrued}
use fluid_solana_programs.Liquidity.User.SupplyTotals
use fluid_solana_programs.Liquidity.User.BorrowTotals
use fluid_solana_programs.Liquidity.User.Operate.{
  operate-Funded, IsFunded, operate_utilization, operate_prices_grow, second_deposit_refused,
  operate_pays, operate_supply-InStep, operate_borrow-InStep,
}
use fluid_solana_programs.Liquidity.User.Sample.{
  move_out, move_out-takes, or_default, supplier, borrower, reserve, before,
}

-- A withdrawal with a borrow, to two receivers.
abbrev taken : ℕ × ℕ × Accounts
taken =
    or_default (0, 0, before)
      (operate move_out (pos 5000) (negsuc 99999) (pos 50000) 11 12 direct before)

-- A supply of what the vault got since `pre_operate`.
abbrev supplied : ℕ × ℕ × Accounts
supplied =
    or_default (0, 0, before)
      (operate move_out (pos 5000) (pos 1000000) (pos 0) 11 12 direct before)

taken_runs : operate move_out (pos 5000) (negsuc 99999) (pos 50000) 11 12 direct before ≡ ok taken
unfolding operate check_amounts operate_amount_in check_deposit store_supply supply_step
    store_borrow borrow_step update_rates pay_withdrawal pay_borrowing pay_withdrawn pay_borrowed
    pay_out returned_prices transfer_spl_tokens hand_over handle_transfer_or_claim pay cast
    cast_to_signed cast_to_unsigned timestamp time_since SafeMath.safe_add SafeMath.safe_sub
    SafeMath.safe_mul SafeMath.safe_div SafeMath.safe_div_ceil Signed.safe_add Signed.safe_sub
    Signed.safe_mul Signed.safe_div Signed.safe_div_ceil Signed.neg Signed.abs mul_u256 num_words
    try_into_u128 safe_multiply_divide safe_multiply_divide_result div short_division small_division
    normalized_division div_loop shift_left shift_right leading_zeros
    calc_borrow_rate_from_utilization calc_rate_v1 get_rate moved_total
    set_new_total_supply_with_interest set_new_total_borrow_with_interest
    get_with_interest_vs_free_ratio grown_borrow_price utilization_yield paying_borrowers
    grown_supply_price supply_price_at next_supply_price new_prices calculate_exchange_prices
    check_scaled_amount_overflow calc_utilization SupplyPosition.supply_or_withdraw
    SupplyPosition.set_withdrawal_limit SupplyPosition.set_amount SupplyPosition.max_withdrawable
    SupplyPosition.calc_withdrawal_limit_before_operate
    SupplyPosition.calc_withdrawal_limit_after_operate SupplyPosition.deposit_raw
    SupplyPosition.withdraw_raw SupplyPosition.apply_amount BorrowPosition.borrow_or_payback
    BorrowPosition.set_debt_ceiling BorrowPosition.set_amount BorrowPosition.max_expansion
    BorrowPosition.grow_limit BorrowPosition.calc_borrow_limit_before_operate
    BorrowPosition.calc_borrow_limit_after_operate BorrowPosition.borrow_raw
    BorrowPosition.payback_raw BorrowPosition.apply_amount
taken_runs = refl

supplied_runs : operate move_out (pos 5000) (pos 1000000) (pos 0) 11 12 direct before ≡ ok supplied
unfolding operate check_amounts operate_amount_in check_deposit store_supply supply_step
    store_borrow borrow_step update_rates pay_withdrawal pay_borrowing pay_withdrawn pay_borrowed
    pay_out returned_prices transfer_spl_tokens hand_over handle_transfer_or_claim pay cast
    cast_to_signed cast_to_unsigned timestamp time_since SafeMath.safe_add SafeMath.safe_sub
    SafeMath.safe_mul SafeMath.safe_div SafeMath.safe_div_ceil Signed.safe_add Signed.safe_sub
    Signed.safe_mul Signed.safe_div Signed.safe_div_ceil Signed.neg Signed.abs mul_u256 num_words
    try_into_u128 safe_multiply_divide safe_multiply_divide_result div short_division small_division
    normalized_division div_loop shift_left shift_right leading_zeros
    calc_borrow_rate_from_utilization calc_rate_v1 get_rate moved_total
    set_new_total_supply_with_interest set_new_total_borrow_with_interest
    get_with_interest_vs_free_ratio grown_borrow_price utilization_yield paying_borrowers
    grown_supply_price supply_price_at next_supply_price new_prices calculate_exchange_prices
    check_scaled_amount_overflow calc_utilization SupplyPosition.supply_or_withdraw
    SupplyPosition.set_withdrawal_limit SupplyPosition.set_amount SupplyPosition.max_withdrawable
    SupplyPosition.calc_withdrawal_limit_before_operate
    SupplyPosition.calc_withdrawal_limit_after_operate SupplyPosition.deposit_raw
    SupplyPosition.withdraw_raw SupplyPosition.apply_amount BorrowPosition.borrow_or_payback
    BorrowPosition.set_debt_ceiling BorrowPosition.set_amount BorrowPosition.max_expansion
    BorrowPosition.grow_limit BorrowPosition.calc_borrow_limit_before_operate
    BorrowPosition.calc_borrow_limit_after_operate BorrowPosition.borrow_raw
    BorrowPosition.payback_raw BorrowPosition.apply_amount
supplied_runs = refl

operate_pays_example :
    (before.vault_balance + taken.2.token_reserve.total_claim_amount
      ≡ taken.2.vault_balance + before.token_reserve.total_claim_amount + (100000 + 50000))
    × (IsCovered taken.2
        ⊎ ((taken.2.vault_balance ≡ before.vault_balance)
            × (taken.2.token_reserve.total_claim_amount ≡ before.token_reserve.total_claim_amount)))
operate_pays_example =
    operate_pays move_out move_out-takes (pos 5000) (negsuc 99999) (pos 50000) 11 12 direct before
      taken_runs

-- The accounts of the supply, a million before: what `pre_operate` finds and what it leaves.
abbrev earlier : Accounts
earlier = record before { vault_balance = before.token_reserve.interacting_balance }

abbrev opened : Accounts
opened = or_default before (pre_operate (pos 5000) earlier)

opens : pre_operate (pos 5000) earlier ≡ ok opened
unfolding pre_operate timestamp cast_to_unsigned
opens = refl

same_reserve : before.token_reserve ≡ opened.token_reserve
unfolding pre_operate timestamp cast_to_unsigned
same_reserve = refl

operate-Funded_example :
    (pos_part (pos 1000000) + neg_part (pos 0) ≡ 0)
    ⊎ IsFunded (pos 5000) (pos 5000) 1000000 earlier before
operate-Funded_example =
    operate-Funded move_out (pos 5000) (pos 1000000) (pos 0) 11 12 direct before (pos 5000) earlier
      opens same_reserve supplied_runs

operate_utilization_example :
    (((scaled_supply taken.2.token_reserve taken.0 ≡ 0)
        × (taken.2.token_reserve.last_utilization ≡ 0))
      ⊎ ((taken.2.token_reserve.last_utilization * scaled_supply taken.2.token_reserve taken.0
            ≤ scaled_borrow taken.2.token_reserve taken.1 * four_decimals)
          × (scaled_borrow taken.2.token_reserve taken.1 * four_decimals
              < suc taken.2.token_reserve.last_utilization
                * scaled_supply taken.2.token_reserve taken.0)))
    × ((pos_part (pos 50000) ≡ 0)
        ⊎ (taken.2.token_reserve.last_utilization ≤ taken.2.token_reserve.max_utilization))
operate_utilization_example =
    operate_utilization move_out move_out-takes (pos 5000) (negsuc 99999) (pos 50000) 11 12 direct
      before taken_runs

operate_prices_grow_example :
    (taken.2.token_reserve.supply_exchange_price ≡ taken.0)
    × (taken.2.token_reserve.borrow_exchange_price ≡ taken.1)
    × (before.token_reserve.supply_exchange_price ≤ taken.0)
    × IsAccrued (pos 5000) before.token_reserve taken.1
operate_prices_grow_example =
    operate_prices_grow move_out move_out-takes (pos 5000) (negsuc 99999) (pos 50000) 11 12 direct
      before taken_runs

-- The accounts as the next instruction finds them.
abbrev after : Accounts
after = record before { token_reserve = supplied.2.token_reserve }

second_deposit_refused_example :
    ¬ (operate move_out (pos 5000) (pos 1000000) (pos 0) 11 12 direct after ≡ ok supplied)
second_deposit_refused_example =
    second_deposit_refused move_out move_out-takes (pos 5000) (pos 1000000) (pos 0) 11 12 direct
      before (pos 5000) (pos 1000000) (pos 0) 11 12 direct after supplied_runs refl (omega arith)
      (omega arith)

abbrev supplier_of : Option UserSupplyPosition → UserSupplyPosition
supplier_of none = supplier
supplier_of (some p) = p

abbrev borrower_of : Option UserBorrowPosition → UserBorrowPosition
borrower_of none = borrower
borrower_of (some p) = p

supplier_stays : taken.2.user_supply_position ≡ some (supplier_of taken.2.user_supply_position)
unfolding operate check_amounts operate_amount_in check_deposit store_supply supply_step
    store_borrow borrow_step update_rates pay_withdrawal pay_borrowing pay_withdrawn pay_borrowed
    pay_out returned_prices transfer_spl_tokens hand_over handle_transfer_or_claim pay cast
    cast_to_signed cast_to_unsigned timestamp time_since SafeMath.safe_add SafeMath.safe_sub
    SafeMath.safe_mul SafeMath.safe_div SafeMath.safe_div_ceil Signed.safe_add Signed.safe_sub
    Signed.safe_mul Signed.safe_div Signed.safe_div_ceil Signed.neg Signed.abs mul_u256 num_words
    try_into_u128 safe_multiply_divide safe_multiply_divide_result div short_division small_division
    normalized_division div_loop shift_left shift_right leading_zeros
    calc_borrow_rate_from_utilization calc_rate_v1 get_rate moved_total
    set_new_total_supply_with_interest set_new_total_borrow_with_interest
    get_with_interest_vs_free_ratio grown_borrow_price utilization_yield paying_borrowers
    grown_supply_price supply_price_at next_supply_price new_prices calculate_exchange_prices
    check_scaled_amount_overflow calc_utilization SupplyPosition.supply_or_withdraw
    SupplyPosition.set_withdrawal_limit SupplyPosition.set_amount SupplyPosition.max_withdrawable
    SupplyPosition.calc_withdrawal_limit_before_operate
    SupplyPosition.calc_withdrawal_limit_after_operate SupplyPosition.deposit_raw
    SupplyPosition.withdraw_raw SupplyPosition.apply_amount BorrowPosition.borrow_or_payback
    BorrowPosition.set_debt_ceiling BorrowPosition.set_amount BorrowPosition.max_expansion
    BorrowPosition.grow_limit BorrowPosition.calc_borrow_limit_before_operate
    BorrowPosition.calc_borrow_limit_after_operate BorrowPosition.borrow_raw
    BorrowPosition.payback_raw BorrowPosition.apply_amount
supplier_stays = refl

borrower_stays : taken.2.user_borrow_position ≡ some (borrower_of taken.2.user_borrow_position)
unfolding operate check_amounts operate_amount_in check_deposit store_supply supply_step
    store_borrow borrow_step update_rates pay_withdrawal pay_borrowing pay_withdrawn pay_borrowed
    pay_out returned_prices transfer_spl_tokens hand_over handle_transfer_or_claim pay cast
    cast_to_signed cast_to_unsigned timestamp time_since SafeMath.safe_add SafeMath.safe_sub
    SafeMath.safe_mul SafeMath.safe_div SafeMath.safe_div_ceil Signed.safe_add Signed.safe_sub
    Signed.safe_mul Signed.safe_div Signed.safe_div_ceil Signed.neg Signed.abs mul_u256 num_words
    try_into_u128 safe_multiply_divide safe_multiply_divide_result div short_division small_division
    normalized_division div_loop shift_left shift_right leading_zeros
    calc_borrow_rate_from_utilization calc_rate_v1 get_rate moved_total
    set_new_total_supply_with_interest set_new_total_borrow_with_interest
    get_with_interest_vs_free_ratio grown_borrow_price utilization_yield paying_borrowers
    grown_supply_price supply_price_at next_supply_price new_prices calculate_exchange_prices
    check_scaled_amount_overflow calc_utilization SupplyPosition.supply_or_withdraw
    SupplyPosition.set_withdrawal_limit SupplyPosition.set_amount SupplyPosition.max_withdrawable
    SupplyPosition.calc_withdrawal_limit_before_operate
    SupplyPosition.calc_withdrawal_limit_after_operate SupplyPosition.deposit_raw
    SupplyPosition.withdraw_raw SupplyPosition.apply_amount BorrowPosition.borrow_or_payback
    BorrowPosition.set_debt_ceiling BorrowPosition.set_amount BorrowPosition.max_expansion
    BorrowPosition.grow_limit BorrowPosition.calc_borrow_limit_before_operate
    BorrowPosition.calc_borrow_limit_after_operate BorrowPosition.borrow_raw
    BorrowPosition.payback_raw BorrowPosition.apply_amount
borrower_stays = refl

operate_supply-InStep_example :
    SupplyTotals.InStep supplier
      (supplier_of taken.2.user_supply_position)
      reserve
      taken.2.token_reserve
operate_supply-InStep_example =
    operate_supply-InStep move_out move_out-takes (pos 5000) (negsuc 99999) (pos 50000) 11 12 direct
      before supplier (supplier_of taken.2.user_supply_position) refl supplier_stays (omega arith)
      taken_runs

operate_borrow-InStep_example :
    BorrowTotals.InStep borrower
      (borrower_of taken.2.user_borrow_position)
      reserve
      taken.2.token_reserve
operate_borrow-InStep_example =
    operate_borrow-InStep move_out move_out-takes (pos 5000) (negsuc 99999) (pos 50000) 11 12 direct
      before borrower (borrower_of taken.2.user_borrow_position) refl borrower_stays (omega arith)
      taken_runs

-- What the claim at 21 leaves.
abbrev claimed : Accounts
claimed = or_default before (claim_tokens move_out 21 before)

claimed_runs : claim_tokens move_out 21 before ≡ ok claimed
unfolding claim_tokens transfer_spl_tokens reduce_claim_amount SafeMath.safe_sub
claimed_runs = refl

claim-pays_example :
    (0 < 1000)
    × (claimed.vault_balance + 1000 ≡ 1001000000)
    × (claimed.token_reserve.total_claim_amount + 1000 ≡ 1000)
    × ((claimed.claims 21).amount ≡ 0)
claim-pays_example = claim-pays move_out move_out-takes 21 before claimed_runs
