-- ===== src/Liquidity/SupplyPosition.antt =====
-- `programs/liquidity/src/state/user_supply_position.rs`: what a protocol has supplied, with the
-- limit below which withdrawals must not bring it. Amounts are raw or normal by the interest mode.
pub mod Amounts
pub mod Limits
pub mod Safety
mod Tests
use fluid_solana_programs.Base.{ℕ, ◌-◌, ◌≡◌, ltb, leb, ◌==◌, if◌then◌else◌, Bool, not, ◌&&◌}
use fluid_solana_programs.Base.Int.{ℤ, pos, is_pos, is_neg}
use fluid_solana_programs.Base.Errors.{
  liquidity, value_overflow, user_paused, operate_amounts_insufficient, withdrawal_limit_reached,
}
use fluid_solana_programs.Base.Result.{Result, ok, err, ◌>>=◌, ◌>>◌, fail_if}
use fluid_solana_programs.Math.Words.{u16_max, u64_max, u128_max, i128_max}
use fluid_solana_programs.Math.Casting.{cast, cast_to_signed, cast_to_unsigned}
use fluid_solana_programs.Math.SafeMath.{safe_add, safe_sub, safe_mul, safe_div}
use fluid_solana_programs.Math.Signed
use fluid_solana_programs.Liquidity.Constants.{Pubkey, four_decimals, exchange_prices_precision}
use fluid_solana_programs.Liquidity.Clock.{timestamp, time_since}

pub record UserSupplyPosition : Type 0 where
  pub protocol : Pubkey
  pub mint : Pubkey
  pub with_interest : ℕ
  pub amount : ℕ
  pub withdrawal_limit : ℕ
  pub last_update : ℕ
  pub expand_pct : ℕ
  pub expand_duration : ℕ
  pub base_withdrawal_limit : ℕ
  pub status : ℕ

-- `UserSupplyPositionStatus`
abbrev pub active : ℕ
active = 0

abbrev pub paused : ℕ
paused = 1

abbrev pub not_set : ℕ
not_set = 2

abbrev pub is_active : UserSupplyPosition → Bool
is_active p = p.status == active

abbrev pub configs_not_set : UserSupplyPosition → Bool
configs_not_set p = p.status == not_set

abbrev pub has_interest : UserSupplyPosition → Bool
has_interest p = p.with_interest == 1

unfoldable pub set_withdrawal_limit : ℕ → UserSupplyPosition → Result UserSupplyPosition
set_withdrawal_limit limit p =
    if ltb u64_max limit
    then err (liquidity value_overflow)
    else ok (record p { withdrawal_limit = limit })

unfoldable pub set_amount : ℕ → UserSupplyPosition → Result UserSupplyPosition
set_amount n p = do a ← cast u64_max n; ok (record p { amount = a })

-- The share of the supply that may be withdrawn once the limit has expanded in full.
unfoldable pub max_withdrawable : UserSupplyPosition → ℕ → Result ℕ
max_withdrawable p amount = do
  scaled ← safe_mul u128_max amount p.expand_pct
  safe_div scaled four_decimals

-- The current limit and the amount.
unfoldable pub calc_withdrawal_limit_before_operate : ℤ → UserSupplyPosition → Result (ℕ × ℕ)
calc_withdrawal_limit_before_operate now p =
    if p.withdrawal_limit == 0 then ok (0, p.amount) else do
      most ← max_withdrawable p p.amount
      elapsed ← time_since now p.last_update
      expanded ← safe_mul u128_max most elapsed
      withdrawal_amount ← safe_div expanded p.expand_duration
      minimum ← safe_sub p.amount most
      let current = p.withdrawal_limit - withdrawal_amount
      ok (if ltb current minimum then minimum else current, p.amount)

unfoldable pub calc_withdrawal_limit_after_operate : UserSupplyPosition → ℕ → ℕ → Result ℕ
calc_withdrawal_limit_after_operate p amount limit =
    if ltb amount p.base_withdrawal_limit then ok 0 else do
      most ← max_withdrawable p amount
      minimum ← safe_sub amount most
      ok (if ltb limit minimum then minimum else limit)

-- With interest a deposit is rounded down to raw: the signed raw amount and the new amount.
unfoldable pub deposit_raw : ℤ → ℕ → ℕ → Result (ℤ × ℕ)
deposit_raw a price amount = do
  precision ← cast_to_signed i128_max exchange_prices_precision
  scaled ← Signed.safe_mul i128_max a precision
  divisor ← cast_to_signed i128_max price
  raw ← Signed.safe_div i128_max scaled divisor
  added ← cast_to_unsigned u128_max raw
  total ← safe_add u128_max amount added
  ok (raw, total)

-- With interest a withdrawal is rounded up to raw.
unfoldable pub withdraw_raw : ℤ → ℕ → ℕ → Result (ℤ × ℕ)
withdraw_raw a price amount = do
  size ← Signed.abs i128_max a
  precision ← cast_to_signed i128_max exchange_prices_precision
  scaled ← Signed.safe_mul i128_max size precision
  divisor ← cast_to_signed i128_max price
  rounded ← Signed.safe_div_ceil i128_max scaled divisor
  raw ← Signed.neg i128_max rounded
  raw_size ← Signed.abs i128_max raw
  taken ← cast_to_unsigned u128_max raw_size
  total ← safe_sub amount taken
  ok (raw, total)

-- Without interest the amount counts as it is.
unfoldable pub move_free : ℤ → ℕ → Result ℕ
move_free a amount =
    if is_pos a
    then (do added ← cast_to_unsigned u128_max a; safe_add u128_max amount added)
    else (do
      size ← Signed.abs i128_max a
      taken ← cast_to_unsigned u128_max size
      safe_sub amount taken)

abbrev is_zero : ℤ → Bool
is_zero = Signed.is_zero

-- The raw amount moved, the interest-free amount moved, and the new amount of the position.
unfoldable pub apply_amount : ℤ → ℕ → UserSupplyPosition → ℕ → Result (ℤ × ℤ × ℕ)
apply_amount a price p amount =
    if has_interest p
    then (do
      (raw, total) ← if is_pos a then deposit_raw a price amount else withdraw_raw a price amount
      fail_if (is_zero raw) (liquidity operate_amounts_insufficient)
      ok (raw, pos 0, total))
    else (do total ← move_free a amount; ok (pos 0, a, total))

-- A supply (`0 < a`) or a withdrawal (`a < 0`).
unfoldable pub supply_or_withdraw :
    ℤ → ℤ → ℕ → UserSupplyPosition → Result (ℤ × ℤ × UserSupplyPosition)
supply_or_withdraw now a price p = do
  fail_if (not (is_active p)) (liquidity user_paused)
  (current, before) ← calc_withdrawal_limit_before_operate now p
  (raw, free, amount) ← apply_amount a price p before
  fail_if (is_neg a && ltb amount current) (liquidity withdrawal_limit_reached)
  limit ← calc_withdrawal_limit_after_operate p amount current
  with_amount ← set_amount amount p
  with_limit ← set_withdrawal_limit limit with_amount
  t ← timestamp now
  ok (raw, free, record with_limit { last_update = t })
