-- ===== src/Vaults/Position.antt =====
-- `programs/vaults/src/state/position.rs`: what a user of a vault has supplied, with the tick that
-- stands for the ratio of the debt to it. `VaultExchangePrices` and `AmountInfo` are records.
pub mod Amounts
use fluid_solana_programs.Base.{
  ℕ, ◌+◌, ◌-◌, ◌*◌, ◌/◌, ◌^◌, leb, ltb, ◌==◌, if◌then◌else◌, Bool, not, ◌&&◌, ◌||◌,
}
use fluid_solana_programs.Base.Int.{ℤ, pos, negsuc, ltb_ℤ, eqb_ℤ, nat_abs}
use fluid_solana_programs.Base.Errors.{
  panic, vault, vault_user_collateral_debt_exceed, vault_excess_collateral_withdrawal,
  vault_excess_debt_payback,
}
use fluid_solana_programs.Base.Result.{Result, ok, err, ◌>>=◌, ◌>>◌, fail_if}
use fluid_solana_programs.Math.Words.{u64_max, u128_max, i128_max}
use fluid_solana_programs.Math.Casting.{cast, cast_to_signed, cast_to_unsigned}
use fluid_solana_programs.Math.SafeMath.{safe_add, safe_sub, safe_mul, safe_div, safe_div_ceil}
use fluid_solana_programs.Math.Signed
use fluid_solana_programs.Math.Tick.{get_ratio_at_tick}
use fluid_solana_programs.Liquidity.Constants.{Pubkey, exchange_prices_precision}
use fluid_solana_programs.Vaults.Constants.{four_decimals}
use fluid_solana_programs.Vaults.TickHasDebt.Indices.{cold_tick}

pub record Position : Type 0 where
  pub vault_id : ℕ
  pub nft_id : ℕ
  pub position_mint : Pubkey
  pub is_supply_only_position : ℕ
  pub tick : ℤ
  pub tick_id : ℕ
  pub supply_amount : ℕ
  pub dust_debt_amount : ℕ

pub record VaultExchangePrices : Type 0 where
  pub supply_ex_price : ℕ
  pub borrow_ex_price : ℕ
  pub borrow_fee : ℕ

pub record AmountInfo : Type 0 where
  pub new_col : ℤ
  pub new_debt : ℤ
  pub col_raw : ℕ
  pub debt_raw : ℕ

abbrev pub supply_only : Position → Bool
supply_only p = p.is_supply_only_position == 1

unfoldable pub set_supply_amount : ℕ → Position → Result Position
set_supply_amount n p = do amount ← cast u64_max n; ok (record p { supply_amount = amount })

unfoldable pub set_dust_debt_amount : ℕ → Position → Result Position
set_dust_debt_amount n p = do amount ← cast u64_max n; ok (record p { dust_debt_amount = amount })

-- The debt that a tick stands for, rounded up; `safe_shr` by 48 is a division.
unfoldable pub debt_at_tick : ℤ → ℕ → Result ℕ
debt_at_tick tick col_raw =
    if ltb_ℤ cold_tick tick
    then (do
      collateral ← safe_add u128_max col_raw 1
      ratio ← get_ratio_at_tick tick
      scaled ← safe_mul u128_max ratio collateral
      safe_add u128_max (scaled / 2 ^ 48) 1)
    else ok 0

unfoldable pub get_position_info : Position → Result (ℕ × ℕ × ℕ × ℤ × ℕ)
unfolding debt_at_tick
get_position_info p = do
  let (tick, tick_id) : ℤ × ℕ = if supply_only p then (cold_tick, 0) else (p.tick, p.tick_id)
  debt_raw ← debt_at_tick tick p.supply_amount
  ok (p.supply_amount, p.dust_debt_amount, debt_raw, tick, tick_id)

-- `i128::MIN`, which asks for all.
abbrev pub i128_min : ℤ
i128_min = negsuc i128_max

-- The collateral part of `get_new_position_info`: the amount and the raw collateral.
unfoldable pub change_collateral : ℕ → ℤ → ℕ → Result (ℤ × ℕ)
change_collateral supply_ex_price (pos n) col_raw = if n == 0 then ok (pos n, col_raw) else (do
  scaled ← safe_mul u128_max n exchange_prices_precision
  raw ← safe_div scaled supply_ex_price
  total ← safe_add u128_max col_raw raw
  fail_if (ltb u64_max total) (vault vault_user_collateral_debt_exceed)
  ok (pos n, total))
change_collateral supply_ex_price (negsuc n) col_raw =
    if ltb_ℤ i128_min (negsuc n)
    then (do
      scaled ← safe_mul u128_max (n + 1) exchange_prices_precision
      withdraw_amount ← safe_div_ceil u128_max scaled supply_ex_price
      fail_if (ltb col_raw withdraw_amount) (vault vault_excess_collateral_withdrawal)
      ok (negsuc n, col_raw - withdraw_amount))
    else if eqb_ℤ (negsuc n) i128_min
    then (do
      scaled ← safe_mul u128_max col_raw supply_ex_price
      all ← safe_div scaled exchange_prices_precision
      signed ← cast_to_signed i128_max all
      negative ← Signed.safe_mul i128_max signed (negsuc 0)
      withdraw_amount ← Signed.safe_add i128_max negative (pos 1)
      ok (withdraw_amount, 0))
    else err (vault vault_user_collateral_debt_exceed)

-- The raw debt with a borrowed amount and its fee.
unfoldable pub add_borrow : ℕ → ℕ → ℕ → Result ℕ
add_borrow borrow_fee borrow_amount debt_raw = do
  with_fee ← safe_mul u128_max borrow_amount borrow_fee
  fee ← safe_div_ceil u128_max with_fee four_decimals
  borrow_amount_with_fee ← safe_add u128_max borrow_amount fee
  total ← safe_add u128_max debt_raw borrow_amount_with_fee
  fail_if (ltb u64_max total) (vault vault_user_collateral_debt_exceed)
  ok total

-- The debt part of `get_new_position_info`: the amount and the raw debt. The fee is owed only.
unfoldable pub change_debt : ℕ → ℕ → ℤ → ℕ → Result (ℤ × ℕ)
unfolding add_borrow
change_debt borrow_ex_price borrow_fee (pos n) debt_raw =
    if n == 0 then ok (pos n, debt_raw) else (do
      scaled ← safe_mul u128_max n exchange_prices_precision
      borrow_amount ← safe_div_ceil u128_max scaled borrow_ex_price
      total ← add_borrow borrow_fee borrow_amount debt_raw
      ok (pos n, total))
change_debt borrow_ex_price borrow_fee (negsuc n) debt_raw =
    if ltb_ℤ i128_min (negsuc n)
    then (do
      scaled ← safe_mul u128_max (n + 1) exchange_prices_precision
      covered ← safe_div scaled borrow_ex_price
      payback_amount ← safe_sub covered 1
      fail_if (ltb debt_raw payback_amount) (vault vault_excess_debt_payback)
      ok (negsuc n, debt_raw - payback_amount))
    else if eqb_ℤ (negsuc n) i128_min
    then (do
      scaled ← safe_mul u128_max debt_raw borrow_ex_price
      all ← safe_div_ceil u128_max scaled exchange_prices_precision
      signed ← cast_to_signed i128_max all
      payback_amount ← Signed.safe_mul i128_max signed (negsuc 0)
      ok (payback_amount, 0))
    else err (vault vault_user_collateral_debt_exceed)

unfoldable pub get_new_position_info : AmountInfo → VaultExchangePrices → Result (ℤ × ℤ × ℕ × ℕ)
unfolding change_collateral change_debt
get_new_position_info info prices = do
  (new_col, col_raw) ← change_collateral prices.supply_ex_price info.new_col info.col_raw
  (new_debt, debt_raw) ←
      change_debt prices.borrow_ex_price prices.borrow_fee info.new_debt info.debt_raw
  ok (new_col, new_debt, col_raw, debt_raw)

-- `update_position_after_operate`, of the tick, its id and the raw amounts of the operation.
unfoldable pub update_position_after_operate : ℤ → ℕ → ℕ → ℕ → Position → Result Position
unfolding set_supply_amount set_dust_debt_amount
update_position_after_operate tick tick_id col_raw dust_debt_raw p = do
  let kind = if eqb_ℤ tick cold_tick then 1 else 0
  supplied ←
      set_supply_amount col_raw
        (record p { is_supply_only_position = kind; tick = tick; tick_id = tick_id })
  set_dust_debt_amount dust_debt_raw supplied
