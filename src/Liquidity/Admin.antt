-- ===== src/Liquidity/Admin.antt =====
-- `update_user_borrow_config` of `programs/liquidity/src/module/admin.rs`, with `UserBorrowConfig` of
-- `state/structs.rs` and the setters of `state/user_borrow_position.rs`. The key of wrapped SOL and the
-- supply of the mint are arguments. Events are left out.
pub mod Debt
pub mod Token
mod Tests
use fluid_solana_programs.Base.{ℕ, ◌-◌, ◌^◌, ◌≡◌, ltb, ◌==◌, if◌then◌else◌, Bool, not, ◌&&◌, ◌||◌}
use fluid_solana_programs.Base.Int.{ℤ}
use fluid_solana_programs.Base.Errors.{
  liquidity, invalid_config_order, invalid_params, limits_cannot_be_zero,
}
use fluid_solana_programs.Base.Result.{Result, ok, err, ◌>>=◌, ◌>>◌, fail_if}
use fluid_solana_programs.Math.Words.{u16_max, u64_max, u128_max}
use fluid_solana_programs.Math.Casting.{cast}
use fluid_solana_programs.Math.SafeMath.{safe_add, safe_mul, safe_div, safe_div_ceil}
use fluid_solana_programs.Liquidity.Constants.{Pubkey, exchange_prices_precision, x14, x24}
use fluid_solana_programs.Liquidity.RateModel.{RateModel}
use fluid_solana_programs.Liquidity.BorrowPosition.{
  UserBorrowPosition, has_interest, configs_not_set, active, set_amount, set_debt_ceiling,
}
use fluid_solana_programs.Liquidity.TokenReserve.{TokenReserve}
use fluid_solana_programs.Liquidity.TokenReserve.Prices.{update_exchange_price}
use fluid_solana_programs.Liquidity.TokenReserve.Utilization.{update_exchange_prices_and_rates}

pub record UserBorrowConfig : Type 0 where
  pub mode : ℕ
  pub expand_percent : ℕ
  pub expand_duration : ℕ
  pub base_debt_ceiling : ℕ
  pub max_debt_ceiling : ℕ

-- At most ten times the supply of the token can be borrowed; the supply of wrapped SOL is 0.
unfoldable pub check_supply_cap : Pubkey → Pubkey → ℕ → ℕ → Result (Unit {0})
check_supply_cap wsol mint total_supply max_debt_ceiling = if mint == wsol then ok tt else (do
  most ← safe_mul u128_max 10 total_supply
  fail_if (ltb most max_debt_ceiling) (liquidity invalid_params))

unfoldable pub check_borrow_config :
    Pubkey → Pubkey → ℕ → TokenReserve → UserBorrowConfig → Result (Unit {0})
check_borrow_config wsol mint total_supply r c = do
  fail_if (r.max_utilization == 0) (liquidity invalid_config_order)
  fail_if (ltb 1 c.mode) (liquidity invalid_params)
  fail_if (ltb c.max_debt_ceiling c.base_debt_ceiling) (liquidity invalid_params)
  check_supply_cap wsol mint total_supply c.max_debt_ceiling
  fail_if (ltb x14 c.expand_percent) (liquidity invalid_params)
  fail_if (ltb x24 c.expand_duration || c.expand_duration == 0) (liquidity invalid_params)
  fail_if (c.base_debt_ceiling == 0 || c.max_debt_ceiling == 0) (liquidity limits_cannot_be_zero)

-- The setters of the configuration.
unfoldable pub set_borrow_config : UserBorrowConfig → UserBorrowPosition → Result UserBorrowPosition
set_borrow_config c p = do
  percent ← cast u16_max c.expand_percent
  duration ← cast (2 ^ 32 - 1) c.expand_duration
  base ← cast u64_max c.base_debt_ceiling
  max ← cast u64_max c.max_debt_ceiling
  ok (record p {
    with_interest = c.mode;
    expand_pct = percent;
    expand_duration = duration;
    base_debt_ceiling = base;
    max_debt_ceiling = max;
  })

-- From normal amounts to raw amounts or back: the new debt (rounded up), the new debt ceiling, and the
-- totals with interest and without.
unfoldable pub convert_debt : ℕ → UserBorrowPosition → TokenReserve → Result (ℕ × ℕ × ℕ × ℕ)
convert_debt price p r =
    if has_interest p
    then (do
      scaled ← safe_mul u128_max p.amount price
      debt ← safe_div_ceil u128_max scaled exchange_prices_precision
      scaled_ceiling ← safe_mul u128_max p.debt_ceiling price
      ceiling ← safe_div scaled_ceiling exchange_prices_precision
      free ← safe_add u128_max r.total_borrow_interest_free debt
      ok (debt, ceiling, r.total_borrow_with_interest - p.amount, free))
    else (do
      scaled ← safe_mul u128_max p.amount exchange_prices_precision
      debt ← safe_div_ceil u128_max scaled price
      scaled_ceiling ← safe_mul u128_max p.debt_ceiling exchange_prices_precision
      ceiling ← safe_div scaled_ceiling price
      raw ← safe_add u128_max r.total_borrow_with_interest debt
      ok (debt, ceiling, raw, r.total_borrow_interest_free - p.amount))

-- The mode changes: the debt and the totals are converted at the price of the time.
unfoldable pub change_mode :
    ℤ
    → RateModel
    → UserBorrowConfig
    → TokenReserve
    → UserBorrowPosition
    → Result (TokenReserve × UserBorrowPosition)
change_mode now model c r p = do
  (_, price, priced) ← update_exchange_price now r
  (debt, ceiling, raw, free) ← convert_debt price p priced
  with_amount ← set_amount debt p
  with_ceiling ← set_debt_ceiling ceiling with_amount
  moved ← set_borrow_config c with_ceiling
  total_raw ← cast u64_max raw
  total_free ← cast u64_max free
  (_, _, updated) ← update_exchange_prices_and_rates now model (record priced {
    total_borrow_with_interest = total_raw;
    total_borrow_interest_free = total_free;
  })
  ok (updated, moved)

-- The mode of the position is the one of the configuration.
abbrev pub same_mode : UserBorrowConfig → UserBorrowPosition → Bool
same_mode c p = (not (has_interest p) && c.mode == 0) || (has_interest p && c.mode == 1)

unfoldable pub update_user_borrow_config :
    Pubkey
    → Pubkey
    → ℕ
    → ℤ
    → RateModel
    → UserBorrowConfig
    → TokenReserve
    → UserBorrowPosition
    → Result (TokenReserve × UserBorrowPosition)
update_user_borrow_config wsol mint total_supply now model c r p = do
  check_borrow_config wsol mint total_supply r c
  if configs_not_set p
      then (do q ← set_borrow_config c (record p { status = active }); ok (r, q))
      else if same_mode c p
      then (do q ← set_borrow_config c p; ok (r, q))
      else change_mode now model c r p
