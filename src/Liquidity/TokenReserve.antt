-- ===== src/Liquidity/TokenReserve.antt =====
-- `programs/liquidity/src/state/token_reserve.rs`: the totals, exchange prices and rates of one
-- token. Events are left out.
pub mod Prices
pub mod Growth
pub mod Utilization
pub mod Totals
pub mod Revenue
mod Tests
use fluid_solana_programs.Base.{ℕ, ◌-◌, ◌≡◌, ltb, leb, ◌==◌, if◌then◌else◌, Bool}
use fluid_solana_programs.Base.Int.{ℤ, is_pos}
use fluid_solana_programs.Base.Errors.{
  liquidity, value_overflow_total_supply, value_overflow_total_borrow,
}
use fluid_solana_programs.Base.Result.{Result, ok, err, ◌>>=◌, ◌>>◌, fail_if}
use fluid_solana_programs.Math.Words.{u64_max, u128_max, i128_max}
use fluid_solana_programs.Math.Casting.{cast, cast_to_unsigned}
use fluid_solana_programs.Math.SafeMath.{safe_add, safe_sub}
use fluid_solana_programs.Math.Signed
use fluid_solana_programs.Liquidity.Constants.{
  Pubkey, default_pubkey, exchange_prices_precision, max_token_amount_cap,
}
use fluid_solana_programs.Liquidity.Clock.{timestamp}

pub record TokenReserve : Type 0 where
  pub mint : Pubkey
  pub vault : Pubkey
  pub borrow_rate : ℕ
  pub fee_on_interest : ℕ
  pub last_utilization : ℕ
  pub last_update_timestamp : ℕ
  pub supply_exchange_price : ℕ
  pub borrow_exchange_price : ℕ
  pub max_utilization : ℕ
  pub total_supply_with_interest : ℕ
  pub total_supply_interest_free : ℕ
  pub total_borrow_with_interest : ℕ
  pub total_borrow_interest_free : ℕ
  pub total_claim_amount : ℕ
  pub interacting_protocol : Pubkey
  pub interacting_timestamp : ℕ
  pub interacting_balance : ℕ

unfoldable pub init : ℤ → Pubkey → Pubkey → TokenReserve → Result TokenReserve
init now mint vault r = do
  t ← timestamp now
  price ← cast u64_max exchange_prices_precision
  ok (record r {
    mint = mint;
    vault = vault;
    last_update_timestamp = t;
    supply_exchange_price = price;
    borrow_exchange_price = price;
  })

unfoldable pub add_claim_amount : ℕ → TokenReserve → Result TokenReserve
add_claim_amount amount r = do
  total ← safe_add u64_max r.total_claim_amount amount
  ok (record r { total_claim_amount = total })

unfoldable pub reduce_claim_amount : ℕ → TokenReserve → Result TokenReserve
reduce_claim_amount amount r = do
  total ← safe_sub r.total_claim_amount amount
  ok (record r { total_claim_amount = total })

abbrev pub reset_interacting_state : TokenReserve → TokenReserve
reset_interacting_state r = record r {
  interacting_protocol = default_pubkey;
  interacting_timestamp = 0;
  interacting_balance = 0;
}

-- A total after a signed amount: the four `get_new_total_…` functions share it. An amount that is
-- taken off stops at 0.
unfoldable pub moved_total : ℕ → ℤ → Result ℕ
moved_total total a =
    if is_pos a
    then (do added ← cast_to_unsigned u128_max a; safe_add u128_max total added)
    else (do
      size ← Signed.abs i128_max a
      taken ← cast_to_unsigned u128_max size
      ok (total - taken))

unfoldable pub set_new_total_supply_with_interest : ℤ → TokenReserve → Result TokenReserve
set_new_total_supply_with_interest a r = do
  total ← moved_total r.total_supply_with_interest a
  value ← cast u64_max total
  ok (record r { total_supply_with_interest = value })

unfoldable pub set_new_total_supply_interest_free : ℤ → TokenReserve → Result TokenReserve
set_new_total_supply_interest_free a r = do
  total ← moved_total r.total_supply_interest_free a
  fail_if (ltb max_token_amount_cap total) (liquidity value_overflow_total_supply)
  value ← cast u64_max total
  ok (record r { total_supply_interest_free = value })

unfoldable pub set_new_total_borrow_with_interest : ℤ → TokenReserve → Result TokenReserve
set_new_total_borrow_with_interest a r = do
  total ← moved_total r.total_borrow_with_interest a
  value ← cast u64_max total
  ok (record r { total_borrow_with_interest = value })

unfoldable pub set_new_total_borrow_interest_free : ℤ → TokenReserve → Result TokenReserve
set_new_total_borrow_interest_free a r = do
  total ← moved_total r.total_borrow_interest_free a
  fail_if (ltb max_token_amount_cap total) (liquidity value_overflow_total_borrow)
  value ← cast u64_max total
  ok (record r { total_borrow_interest_free = value })
