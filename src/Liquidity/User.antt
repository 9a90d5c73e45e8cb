-- ===== src/Liquidity/User.antt =====
-- `programs/liquidity/src/module/user.rs`: the instructions of a protocol, `pre_operate` and
-- `operate`, and of a user, `claim`. Anchor checks the constraints on the accounts before a handler
-- runs; they are not modelled. Events are left out.
pub mod Payout
pub mod SupplyTotals
pub mod BorrowTotals
pub mod Steps
pub mod Operate
pub mod Collect
pub mod Sample
mod Tests
use fluid_solana_programs.Base.{
  ℕ, ◌+◌, ◌-◌, ◌≤◌, ◌≡◌, ltb, leb, ◌==◌, if◌then◌else◌, Bool, not, ◌&&◌, ◌||◌, Option, none, some,
}
use fluid_solana_programs.Base.Int.{ℤ, pos, negsuc, pos_part, neg_part, nat_abs, is_pos, is_neg}
use fluid_solana_programs.Base.Errors.{
  liquidity, invalid_params, operate_amounts_nearly_zero, operate_amount_too_big, user_not_defined,
  deposit_expected, transfer_amount_out_of_bounds, user_supply_position_required,
  user_borrow_position_required, mint_mismatch, max_utilization_reached,
  withdraw_to_account_required, borrow_to_account_required, no_amount_to_claim,
}
use fluid_solana_programs.Base.Result.{Result, ok, err, ◌>>=◌, ◌>>◌, fail_if}
use fluid_solana_programs.Math.Words.{u64_max, u128_max, i128_max}
use fluid_solana_programs.Math.Casting.{cast, cast_to_unsigned}
use fluid_solana_programs.Math.SafeMath.{safe_add, safe_sub, safe_mul, safe_div}
use fluid_solana_programs.Math.Signed
use fluid_solana_programs.Liquidity.Constants.{
  Pubkey, default_pubkey, min_operate_amount, max_operate, four_decimals, max_input_amount_excess,
}
use fluid_solana_programs.Liquidity.Clock.{timestamp}
use fluid_solana_programs.Liquidity.RateModel.{calc_borrow_rate_from_utilization}
use fluid_solana_programs.Liquidity.SupplyPosition.{UserSupplyPosition, supply_or_withdraw}
use fluid_solana_programs.Liquidity.BorrowPosition.{UserBorrowPosition, borrow_or_payback}
use fluid_solana_programs.Liquidity.TokenReserve.{
  TokenReserve, set_new_total_supply_with_interest, set_new_total_supply_interest_free,
  set_new_total_borrow_with_interest, set_new_total_borrow_interest_free, reset_interacting_state,
  reduce_claim_amount,
}
use fluid_solana_programs.Liquidity.TokenReserve.Prices.{calculate_exchange_prices}
use fluid_solana_programs.Liquidity.TokenReserve.Utilization.{calc_utilization}
use fluid_solana_programs.Liquidity.TokenReserve.Revenue.{calc_revenue}
use fluid_solana_programs.Liquidity.Claim.{
  Accounts, TransferType, ok_or, pay, reset_balance, store_claim, transfer_spl_tokens,
}

abbrev is_none {ℓ} : {A : Type ℓ} → Option A → Bool
is_none none = leb 0 0
is_none (some a) = ltb 0 0

unfoldable pub pre_operate : ℤ → Accounts → Result Accounts
pre_operate now a = do
  fail_if (is_none a.user_supply_position && is_none a.user_borrow_position)
      (liquidity invalid_params)
  t ← timestamp now
  ok (record a {
    token_reserve = record a.token_reserve {
      interacting_protocol = a.protocol;
      interacting_timestamp = t;
      interacting_balance = a.vault_balance;
    };
  })

unfoldable pub check_amounts : ℤ → ℤ → Pubkey → Pubkey → Result (Unit {0})
check_amounts supply borrow withdraw_to borrow_to = do
  fail_if (ltb (nat_abs supply) min_operate_amount && ltb (nat_abs borrow) min_operate_amount)
      (liquidity operate_amounts_nearly_zero)
  fail_if (ltb max_operate (nat_abs supply) || ltb max_operate (nat_abs borrow))
      (liquidity operate_amount_too_big)
  fail_if
      ((is_neg supply && withdraw_to == default_pubkey)
        || (is_pos borrow && borrow_to == default_pubkey))
      (liquidity user_not_defined)

-- What comes in: the deposit and the payback.
unfoldable pub operate_amount_in : ℤ → ℤ → Result ℕ
operate_amount_in supply borrow = do
  payback ← Signed.neg i128_max borrow
  total ← Signed.safe_add i128_max (pos (pos_part supply)) (pos (pos_part payback))
  cast_to_unsigned u128_max total

-- The same protocol has called `pre_operate` at this time, and the vault got what is deposited, with
-- an excess of 1% at most.
unfoldable pub check_deposit : ℤ → ℕ → Accounts → Result (Unit {0})
check_deposit now amount_in a =
    if ltb 0 amount_in
    then (do
      fail_if (not (a.token_reserve.interacting_protocol == a.protocol))
          (liquidity deposit_expected)
      t ← timestamp now
      fail_if (not (a.token_reserve.interacting_timestamp == t)) (liquidity deposit_expected)
      net_amount_in ← safe_sub a.vault_balance a.token_reserve.interacting_balance
      fail_if (ltb net_amount_in amount_in) (liquidity transfer_amount_out_of_bounds)
      percent ← safe_add u128_max four_decimals max_input_amount_excess
      scaled ← safe_mul u128_max amount_in percent
      most ← safe_div scaled four_decimals
      fail_if (ltb most net_amount_in) (liquidity transfer_amount_out_of_bounds))
    else ok tt

-- The new total of the mode in which the position moved, and the new position.
unfoldable pub store_supply : Accounts → ℤ × ℤ × UserSupplyPosition → Result Accounts
store_supply a (raw, free, moved) = do
  reserve ←
      if Signed.is_zero free
      then set_new_total_supply_with_interest raw a.token_reserve
      else set_new_total_supply_interest_free free a.token_reserve
  ok (record a { token_reserve = reserve; user_supply_position = some moved })

unfoldable pub supply_step : ℤ → ℤ → ℕ → Accounts → Result Accounts
supply_step now amount price a = if Signed.is_zero amount then ok a else (do
  position ← ok_or (liquidity user_supply_position_required) a.user_supply_position
  fail_if (not (position.mint == a.mint)) (liquidity mint_mismatch)
  supply_or_withdraw now amount price position >>= store_supply a)

-- The new total of the mode in which the position moved, and the new position.
unfoldable pub store_borrow : Accounts → ℤ × ℤ × UserBorrowPosition → Result Accounts
store_borrow a (raw, free, moved) = do
  reserve ←
      if Signed.is_zero free
      then set_new_total_borrow_with_interest raw a.token_reserve
      else set_new_total_borrow_interest_free free a.token_reserve
  ok (record a { token_reserve = reserve; user_borrow_position = some moved })

unfoldable pub borrow_step : ℤ → ℤ → ℕ → Accounts → Result Accounts
borrow_step now amount price a = if Signed.is_zero amount then ok a else (do
  position ← ok_or (liquidity user_borrow_position_required) a.user_borrow_position
  fail_if (not (position.mint == a.mint)) (liquidity mint_mismatch)
  borrow_or_payback now amount price position >>= store_borrow a)

-- The new utilization and rate, the prices and the time are stored, and the interacting state is
-- reset.
unfoldable pub update_rates : ℤ → ℤ → ℤ → ℕ → ℕ → Accounts → Result Accounts
update_rates now supply borrow supply_price borrow_price a = do
  utilization ←
      calc_utilization a.token_reserve supply_price borrow_price (some supply) (some borrow)
  fail_if (is_pos borrow && ltb a.token_reserve.max_utilization utilization)
      (liquidity max_utilization_reached)
  rate ← calc_borrow_rate_from_utilization a.rate_model utilization
  t ← timestamp now
  s ← cast u64_max supply_price
  b ← cast u64_max borrow_price
  ok (record a {
    token_reserve = reset_interacting_state (record a.token_reserve {
      borrow_rate = rate;
      last_utilization = utilization;
      last_update_timestamp = t;
      supply_exchange_price = s;
      borrow_exchange_price = b;
    });
  })

-- The value that `operate` returns, with the accounts.
unfoldable pub returned_prices : ℕ → ℕ → Accounts → Result (ℕ × ℕ × Accounts)
returned_prices supply_price borrow_price a = do
  s ← cast u64_max supply_price
  b ← cast u64_max borrow_price
  ok (s, b, a)

module _ (transfer : ℕ → ℕ → Result ℕ) where
  unfoldable pub pay_withdrawal : TransferType → ℕ → Pubkey → Accounts → Result Accounts
  pay_withdrawal kind amount withdraw_to a =
      pay transfer kind withdraw_to a.withdraw_to_account (liquidity withdraw_to_account_required)
        a.withdraw_claim_account amount a

  unfoldable pub pay_borrowing : TransferType → ℕ → Pubkey → Accounts → Result Accounts
  pay_borrowing kind amount borrow_to a =
      pay transfer kind borrow_to a.borrow_to_account (liquidity borrow_to_account_required)
        a.borrow_claim_account amount a

  unfoldable pub pay_withdrawn : TransferType → ℕ → Pubkey → Accounts → Result Accounts
  pay_withdrawn kind amount withdraw_to a =
      if ltb 0 amount then pay_withdrawal kind amount withdraw_to a else ok a

  unfoldable pub pay_borrowed : TransferType → ℕ → Pubkey → Accounts → Result Accounts
  pay_borrowed kind amount borrow_to a =
      if ltb 0 amount then pay_borrowing kind amount borrow_to a else ok a

  -- The tokens go out at the end, together where one receiver withdraws and borrows.
  unfoldable pub pay_out : TransferType → ℤ → ℤ → Pubkey → Pubkey → Accounts → Result Accounts
  pay_out kind supply borrow withdraw_to borrow_to a =
      if is_neg supply || is_pos borrow
      then (do
        borrowed ← cast_to_unsigned u64_max (pos (pos_part borrow))
        negated ← Signed.neg i128_max supply
        withdrawn ← cast_to_unsigned u64_max (pos (pos_part negated))
        if ltb 0 withdrawn && ltb 0 borrowed && withdraw_to == borrow_to
            then (do
              total ← safe_add u64_max withdrawn borrowed
              pay_withdrawal kind total withdraw_to a)
            else pay_withdrawn kind withdrawn withdraw_to a
              >>= pay_borrowed kind borrowed borrow_to)
      else ok a

  -- The new supply price and borrow price, and the accounts.
  unfoldable pub operate :
      ℤ → ℤ → ℤ → Pubkey → Pubkey → TransferType → Accounts → Result (ℕ × ℕ × Accounts)
  operate now supply borrow withdraw_to borrow_to kind a = do
    check_amounts supply borrow withdraw_to borrow_to
    amount_in ← operate_amount_in supply borrow
    check_deposit now amount_in a
    (supply_price, borrow_price) ← calculate_exchange_prices now a.token_reserve
    supplied ← supply_step now supply supply_price a
    borrowed ← borrow_step now borrow borrow_price supplied
    updated ← update_rates now supply borrow supply_price borrow_price borrowed
    paid ← pay_out kind supply borrow withdraw_to borrow_to updated
    returned_prices supply_price borrow_price paid

  -- `claim`, on the claim account at `key`.
  unfoldable pub claim_tokens : Pubkey → Accounts → Result Accounts
  claim_tokens key a = do
    let amount = (a.claims key).amount
    fail_if (amount == 0) (liquidity no_amount_to_claim)
    reserve ← reduce_claim_amount amount a.token_reserve
    transfer_spl_tokens transfer amount (record a {
      token_reserve = reserve;
      claims = store_claim key (reset_balance (a.claims key)) a.claims;
    })

  -- The transfer of `collect_revenue`, where there is any revenue.
  unfoldable pub collect_amount : Accounts → ℕ → Result Accounts
  collect_amount a revenue =
      if ltb 0 revenue
      then (do amount ← cast u64_max revenue; transfer_spl_tokens transfer amount a)
      else ok a

  -- `collect_revenue` of `programs/liquidity/src/module/admin.rs`.
  unfoldable pub collect_revenue : ℤ → Accounts → Result Accounts
  collect_revenue now a = calc_revenue now a.vault_balance a.token_reserve >>= collect_amount a
