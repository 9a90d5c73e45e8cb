-- ===== src/Liquidity/Admin/Tests.antt =====
-- Runs of `update_user_borrow_config`.
use fluid_solana_programs.Base.{ℕ, ◌≡◌, refl}
use fluid_solana_programs.Base.Int.{pos}
use fluid_solana_programs.Base.Result.{ok}
use fluid_solana_programs.Math.Casting.{cast, cast_to_signed, cast_to_unsigned}
use fluid_solana_programs.Math.SafeMath
use fluid_solana_programs.Math.Signed
use fluid_solana_programs.Math.U256.{mul_u256, num_words, try_into_u128}
use fluid_solana_programs.Math.U256.MulDiv.{
  safe_multiply_divide, safe_multiply_divide_result, div, short_division, small_division,
  normalized_division,
}
use fluid_solana_programs.Math.U256.Division.{div_loop}
use fluid_solana_programs.Math.U256.Shift.{shift_left, shift_right, leading_zeros}
use fluid_solana_programs.Liquidity.Clock.{timestamp}
use fluid_solana_programs.Liquidity.RateModel.{
  calc_borrow_rate_from_utilization, calc_rate_v1, get_rate,
}
use fluid_solana_programs.Liquidity.BorrowPosition.{
  UserBorrowPosition, set_amount, set_debt_ceiling,
}
use fluid_solana_programs.Liquidity.TokenReserve.{TokenReserve}
use fluid_solana_programs.Liquidity.TokenReserve.Prices.{
  get_with_interest_vs_free_ratio, grown_borrow_price, utilization_yield, paying_borrowers,
  grown_supply_price, supply_price_at, next_supply_price, new_prices, calculate_exchange_prices,
  update_exchange_price,
}
use fluid_solana_programs.Liquidity.TokenReserve.Utilization.{
  check_scaled_amount_overflow, calc_utilization, update_exchange_prices_and_rates,
}
use fluid_solana_programs.Liquidity.User.Sample.{or_default, model, borrower, reserve}
use fluid_solana_programs.Liquidity.Admin.{
  UserBorrowConfig, check_supply_cap, check_borrow_config, set_borrow_config, convert_debt,
  change_mode, update_user_borrow_config,
}
use fluid_solana_programs.Liquidity.Admin.Debt.{Sound, Stored, update_user_borrow_config-Sound}

-- A configuration in the mode that the position does not have.
abbrev config : UserBorrowConfig
config = record {
  mode = 0;
  expand_percent = 2500;
  expand_duration = 43200;
  base_debt_ceiling = 100000000;
  max_debt_ceiling = 950000000;
}

abbrev converted : ℕ × ℕ × ℕ × ℕ
converted = or_default (0, 0, 0, 0) (convert_debt 1020000000000 borrower reserve)

converted_runs : convert_debt 1020000000000 borrower reserve ≡ ok converted
unfolding convert_debt SafeMath.safe_add SafeMath.safe_mul SafeMath.safe_div SafeMath.safe_div_ceil
converted_runs = refl

abbrev configured : TokenReserve × UserBorrowPosition
configured =
    or_default (reserve, borrower)
      (update_user_borrow_config 1 5 1000000000 (pos 5000) model config reserve borrower)

configured_runs :
    update_user_borrow_config 1 5 1000000000 (pos 5000) model config reserve borrower
    ≡ ok (configured.0, configured.1)
unfolding update_user_borrow_config check_borrow_config check_supply_cap set_borrow_config
    convert_debt change_mode update_exchange_price update_exchange_prices_and_rates calc_utilization
    check_scaled_amount_overflow calc_borrow_rate_from_utilization calc_rate_v1 get_rate set_amount
    set_debt_ceiling timestamp calculate_exchange_prices new_prices grown_borrow_price
    next_supply_price supply_price_at grown_supply_price utilization_yield paying_borrowers
    get_with_interest_vs_free_ratio cast cast_to_signed cast_to_unsigned SafeMath.safe_add
    SafeMath.safe_sub SafeMath.safe_mul SafeMath.safe_div SafeMath.safe_div_ceil Signed.safe_add
    Signed.safe_sub Signed.safe_mul Signed.safe_div mul_u256 num_words try_into_u128
    safe_multiply_divide safe_multiply_divide_result div short_division small_division
    normalized_division div_loop shift_left shift_right leading_zeros
configured_runs = refl

update_user_borrow_config-Sound_example : Sound config × Stored config configured.1
update_user_borrow_config-Sound_example =
    update_user_borrow_config-Sound 1 5 1000000000 (pos 5000) model config reserve configured.0
      borrower configured.1 configured_runs
