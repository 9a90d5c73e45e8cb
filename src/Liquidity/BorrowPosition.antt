-- ===== src/Liquidity/BorrowPosition.antt =====
-- `programs/liquidity/src/state/user_borrow_position.rs`: what a protocol has borrowed, with the
-- limit above which borrows must not bring it. Amounts are raw or normal by the interest mode.
pub mod Amounts
pub mod Limits
pub mod Safety
mod Tests
use fluid_solana_programs.Base.{ℕ, ◌+◌, ◌≡◌, ltb, ◌==◌, if◌then◌else◌, Bool, not, ◌&&◌}
use fluid_solana_programs.Base.Int.{ℤ, pos, is_pos}
use fluid_solana_programs.Base.Errors.{
  liquidity, user_paused, operate_amounts_insufficient, borrow_limit_reached,
}
use fluid_solana_programs.Base.Result.{Result, ok, err, ◌>>=◌, ◌>>◌, fail_if}
use fluid_solana_programs.Math.Words.{u64_max, u128_max, i128_max}
use fluid_solana_programs.Math.Casting.{cast, cast_to_signed, cast_to_unsigned}
use fluid_solana_programs.Math.SafeMath.{safe_add, safe_sub, safe_mul, safe_div}
use fluid_solana_programs.Math.Signed
use fluid_solana_programs.Liquidity.Constants.{Pubkey, four_decimals, exchange_prices_precision}
use fluid_solana_programs.Liquidity.Clock.{timestamp, time_since}

pub record UserBorrowPosition : Type 0 where
  pub protocol : Pubkey
  pub mint : Pubkey
  pub with_interest : ℕ
  pub amount : ℕ
  pub debt_ceiling : ℕ
  pub last_update : ℕ
  pub expand_pct : ℕ
  pub expand_duration : ℕ
  pub base_debt_ceiling : ℕ
  pub max_debt_ceiling : ℕ
  pub status : ℕ

-- `UserBorrowPositionStatus`
abbrev pub active : ℕ
active = 0

abbrev pub paused : ℕ
paused = 1

abbrev pub not_set : ℕ
not_set = 2

abbrev pub is_active : UserBorrowPosition → Bool
is_active p = p.status == active

abbrev pub configs_not_set : UserBorrowPosition → Bool
configs_not_set p = p.status == not_set

abbrev pub has_interest : UserBorrowPosition → Bool
has_interest p = p.with_interest == 1

unfoldable pub set_debt_ceiling : ℕ → UserBorrowPosition → Result UserBorrowPosition
set_debt_ceiling limit p = do l ← cast u64_max limit; ok (record p { debt_ceiling = l })

unfoldable pub set_amount : ℕ → UserBorrowPosition → Result UserBorrowPosition
set_amount n p = do a ← cast u64_max n; ok (record p { amount = a })

-- How far the limit can expand above the amount.
unfoldable pub max_expansion : UserBorrowPosition → ℕ → Result ℕ
max_expansion p amount = do
  scaled ← safe_mul u128_max amount p.expand_pct
  safe_div scaled four_decimals

-- The stored limit grown with the time, within full expansion and within the hard ceiling.
unfoldable pub grow_limit : ℤ → UserBorrowPosition → ℕ → ℕ → Result ℕ
grow_limit now p expansion expanded = do
  elapsed ← time_since now p.last_update
  scaled ← safe_mul u128_max expansion elapsed
  grown ← safe_div scaled p.expand_duration
  limit ← safe_add u128_max grown p.debt_ceiling
  let within = if ltb expanded limit then expanded else limit
  ok (if ltb p.max_debt_ceiling within then p.max_debt_ceiling else within)

unfoldable pub calc_borrow_limit_before_operate : ℤ → UserBorrowPosition → ℕ → Result ℕ
calc_borrow_limit_before_operate now p amount = do
  expansion ← max_expansion p amount
  expanded ← safe_add u128_max amount expansion
  if ltb expanded p.base_debt_ceiling
      then ok p.base_debt_ceiling
      else grow_limit now p expansion expanded

unfoldable pub calc_borrow_limit_after_operate : UserBorrowPosition → ℕ → ℕ → Result ℕ
calc_borrow_limit_after_operate p amount limit = do
  expansion ← max_expansion p amount
  expanded ← safe_add u128_max amount expansion
  let highest = if ltb p.max_debt_ceiling expanded then p.max_debt_ceiling else expanded
  ok (
      if ltb expanded p.base_debt_ceiling
      then p.base_debt_ceiling
      else if ltb highest limit
      then highest
      else limit)

-- With interest a borrow is rounded up to raw: the signed raw amount and the new amount.
unfoldable pub borrow_raw : ℤ → ℕ → ℕ → Result (ℤ × ℕ)
borrow_raw a price amount = do
  precision ← cast_to_signed i128_max exchange_prices_precision
  scaled ← Signed.safe_mul i128_max a precision
  divisor ← cast_to_signed i128_max price
  raw ← Signed.safe_div_ceil i128_max scaled divisor
  added ← cast_to_unsigned u128_max raw
  total ← safe_add u128_max amount added
  ok (raw, total)

-- With interest a payback is rounded down to raw.
unfoldable pub payback_raw : ℤ → ℕ → ℕ → Result (ℤ × ℕ)
payback_raw a price amount = do
  precision ← cast_to_signed i128_max exchange_prices_precision
  scaled ← Signed.safe_mul i128_max a precision
  divisor ← cast_to_signed i128_max price
  raw ← Signed.safe_div i128_max scaled divisor
  raw_size ← Signed.abs i128_max raw
  taken ← cast_to_unsigned u128_max raw_size
  total ← safe_sub amount taken
  ok (raw, total)

-- Without interest the amount counts as it is.
unfoldable pub move_free : ℤ → ℕ → Result ℕ
move_free a amount =
    if is_pos a
    then (do added ← cast_to_unsigned u128_max a; safe_add u128_max amount added)
    else (do
      size ← Signed.abs i128_max a
      taken ← cast_to_unsigned u128_max size
      safe_sub amount taken)

-- The raw amount moved, the interest-free amount moved, and the new amount of the position.
unfoldable pub apply_amount : ℤ → ℕ → UserBorrowPosition → ℕ → Result (ℤ × ℤ × ℕ)
apply_amount a price p amount =
    if has_interest p
    then (do
      (raw, total) ← if is_pos a then borrow_raw a price amount else payback_raw a price amount
      fail_if (Signed.is_zero raw) (liquidity operate_amounts_insufficient)
      ok (raw, pos 0, total))
    else (do total ← move_free a amount; ok (pos 0, a, total))

-- A borrow (`0 < a`) or a payback (`a < 0`).
unfoldable pub borrow_or_payback :
    ℤ → ℤ → ℕ → UserBorrowPosition → Result (ℤ × ℤ × UserBorrowPosition)
borrow_or_payback now a price p = do
  fail_if (not (is_active p)) (liquidity user_paused)
  current ← calc_borrow_limit_before_operate now p p.amount
  (raw, free, amount) ← apply_amount a price p p.amount
  fail_if (is_pos a && ltb current amount) (liquidity borrow_limit_reached)
  limit ← calc_borrow_limit_after_operate p amount current
  t ← timestamp now
  with_amount ← set_amount amount (record p { last_update = t })
  with_limit ← set_debt_ceiling limit with_amount
  ok (raw, free, with_limit)
