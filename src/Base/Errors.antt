-- ===== src/Base/Errors.antt =====
-- The error codes that the modelled code can return: `crates/library/src/errors.rs`, and `errors.rs` of
-- `programs/liquidity/src`, `programs/vaults/src`, `programs/lending/src` and
-- `programs/flashloan/src`.

-- `ErrorCodes` of the library crate, as far as the modelled code returns them.
pub data LibraryError : Type 0 where
  library_math_error library_casting_failure library_division_by_zero : LibraryError
  library_u256_number_down_cast_error library_tick_out_of_bounds : LibraryError
  library_tick_ratio_out_of_bounds library_tick_invalid_perfect_ratio library_bn_error :
      LibraryError

-- `ErrorCodes` of the liquidity program, as far as the modelled code returns them.
pub data LiquidityError : Type 0 where
  invalid_params invalid_config_order limits_cannot_be_zero : LiquidityError
  insufficient_balance user_supply_position_required user_borrow_position_required : LiquidityError
  claim_account_required withdraw_to_account_required borrow_to_account_required : LiquidityError
  invalid_claim_amount no_amount_to_claim value_overflow invalid_transfer_type : LiquidityError
  mint_mismatch user_not_defined invalid_user_claim user_paused : LiquidityError
  withdrawal_limit_reached borrow_limit_reached operate_amounts_nearly_zero : LiquidityError
  operate_amount_too_big operate_amounts_insufficient transfer_amount_out_of_bounds : LiquidityError
  max_utilization_reached value_overflow_total_supply value_overflow_total_borrow : LiquidityError
  deposit_expected exchange_price_zero unsupported_rate_version borrow_rate_negative :
      LiquidityError

-- `ErrorCodes` of the vaults program, as far as the modelled code returns them.
pub data VaultError : Type 0 where
  vault_tick_has_debt_out_of_range vault_tick_has_debt_index_mismatch : VaultError
  vault_tick_has_debt_not_found vault_tick_has_debt_vault_id_mismatch : VaultError
  vault_tick_id_liquidation_mismatch vault_tick_mismatch vault_tick_not_found : VaultError
  vault_branch_not_found vault_new_branch_invalid vault_invalid_decimals : VaultError
  vault_liquidity_exchange_price_unexpected vault_user_collateral_debt_exceed : VaultError
  vault_excess_collateral_withdrawal vault_excess_debt_payback : VaultError
  vault_invalid_liquidation vault_liquidation_reverts vault_branch_debt_too_low : VaultError
  vault_invalid_oracle_price vault_user_debt_too_low vault_tick_debt_too_low : VaultError
  vault_invalid_operate_amount vault_position_above_cf vault_tick_is_empty : VaultError
  vault_position_above_liquidation_threshold vault_invalid_payback_or_deposit : VaultError
  vault_withdraw_more_than_operate_limit vault_top_tick_does_not_exist : VaultError
  vault_invalid_liquidation_amt vault_excess_slippage_liquidation : VaultError
  vault_liquidation_result : VaultError
  vault_invalid_position_authority vault_rebalance_failed vault_nothing_to_rebalance : VaultError

-- `ErrorCodes` of the lending program, as far as the modelled code returns them.
pub data LendingError : Type 0 where
  f_token_liquidity_exchange_price_unexpected f_token_deposit_insignificant : LendingError

-- `ErrorCodes` of the flashloan program, as far as the modelled code returns them.
pub data FlashloanError : Type 0 where
  flashloan_invalid_authority flashloan_fee_too_high flashloan_invalid_params : FlashloanError
  flashloan_already_active flashloan_already_inactive flashloan_paused : FlashloanError
  flashloan_payback_not_found flashloan_invalid_instruction : FlashloanError
  flashloan_cpi_call_not_allowed flashloan_multiple_paybacks_found : FlashloanError

-- What an instruction can fail with: an error code, a panic (`overflow-checks = true` in
-- `Cargo.toml` makes an overflow one), or the failure of a call into another program.
pub data Error : Type 0 where
  library : LibraryError → Error
  liquidity : LiquidityError → Error
  vault : VaultError → Error
  lending : LendingError → Error
  flashloan : FlashloanError → Error
  panic : Error
  external : Error
