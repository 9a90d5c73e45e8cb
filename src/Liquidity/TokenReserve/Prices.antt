-- ===== src/Liquidity/TokenReserve/Prices.antt =====
-- `calculate_exchange_prices` and `update_exchange_price` of
-- `programs/liquidity/src/state/token_reserve.rs`.
use fluid_solana_programs.Base.{ℕ, ◌^◌, ltb, ◌==◌, if◌then◌else◌, ◌&&◌, ◌||◌}
use fluid_solana_programs.Base.Int.{ℤ}
use fluid_solana_programs.Base.Errors.{liquidity, exchange_price_zero}
use fluid_solana_programs.Base.Result.{Result, ok, ◌>>=◌, ◌>>◌, fail_if}
use fluid_solana_programs.Math.Words.{u64_max, u128_max}
use fluid_solana_programs.Math.Casting.{cast, cast_to_unsigned}
use fluid_solana_programs.Math.SafeMath.{safe_add, safe_sub, safe_mul, safe_div, safe_div_ceil}
use fluid_solana_programs.Math.U256.MulDiv.{safe_multiply_divide}
use fluid_solana_programs.Liquidity.Constants.{four_decimals, seconds_per_year}
use fluid_solana_programs.Liquidity.Clock.{timestamp}
use fluid_solana_programs.Liquidity.TokenReserve.{TokenReserve}

abbrev pub exchange_price_rate_output_decimals : ℕ
exchange_price_rate_output_decimals = 10 ^ 17

-- The smaller amount over the larger one, in 1e2.
unfoldable pub get_with_interest_vs_free_ratio : ℕ → ℕ → Result ℕ
get_with_interest_vs_free_ratio with_interest interest_free =
    if ltb interest_free with_interest
    then (do n ← safe_mul u128_max interest_free four_decimals; safe_div n with_interest)
    else if ltb with_interest interest_free
    then (do n ← safe_mul u128_max with_interest four_decimals; safe_div n interest_free)
    else ok (if ltb 0 with_interest then four_decimals else 0)

abbrev pub get_supply_ratio : TokenReserve → Result ℕ
get_supply_ratio r =
    get_with_interest_vs_free_ratio r.total_supply_with_interest r.total_supply_interest_free

abbrev pub get_borrow_ratio : TokenReserve → Result ℕ
get_borrow_ratio r =
    get_with_interest_vs_free_ratio r.total_borrow_with_interest r.total_borrow_interest_free

-- The borrow price with the interest of `seconds`, rounded up.
unfoldable pub grown_borrow_price : TokenReserve → ℕ → Result ℕ
grown_borrow_price r seconds = do
  yearly ← safe_mul u128_max r.borrow_exchange_price r.borrow_rate
  scaled ← safe_mul u128_max yearly seconds
  year ← safe_mul u128_max seconds_per_year four_decimals
  growth ← safe_div_ceil u128_max scaled year
  safe_add u128_max r.borrow_exchange_price growth

-- Utilization times the part of the suppliers that earns, inverted, scaled to 1e17.
unfoldable pub utilization_yield : TokenReserve → ℕ → Result ℕ
utilization_yield r supply_ratio =
    if ltb r.total_supply_with_interest r.total_supply_interest_free
    then (do
      scale ← safe_mul u128_max exchange_price_rate_output_decimals four_decimals
      inverse ← safe_div scale supply_ratio
      whole ← safe_add u128_max exchange_price_rate_output_decimals inverse
      product ← safe_mul u128_max r.last_utilization whole
      safe_div product four_decimals)
    else (do
      product ← safe_mul u128_max r.last_utilization exchange_price_rate_output_decimals
      whole ← safe_add u128_max four_decimals supply_ratio
      scaled ← safe_mul u128_max product whole
      square ← safe_mul u128_max four_decimals four_decimals
      safe_div scaled square)

-- The part of the borrowers that pays, scaled to 1e17.
unfoldable pub paying_borrowers : TokenReserve → ℕ → Result ℕ
paying_borrowers r borrow_ratio = do
  scaled ← safe_mul u128_max borrow_ratio exchange_price_rate_output_decimals
  whole ← safe_add u128_max four_decimals borrow_ratio
  part ← safe_div scaled whole
  if ltb r.total_borrow_with_interest r.total_borrow_interest_free
      then ok part
      else safe_sub exchange_price_rate_output_decimals part

-- The supply price with the interest of `seconds`, rounded down.
unfoldable pub grown_supply_price : TokenReserve → ℕ → ℕ → Result ℕ
grown_supply_price r seconds supply_ratio = do
  yield ← utilization_yield r supply_ratio
  borrow_ratio ← get_borrow_ratio r
  paying ← paying_borrowers r borrow_ratio
  product ← safe_multiply_divide yield paying exchange_price_rate_output_decimals
  scaled ← safe_mul u128_max product four_decimals
  ratio_supply_yield ← safe_div scaled exchange_price_rate_output_decimals
  gross ← safe_mul u128_max r.borrow_rate ratio_supply_yield
  after_fee ← safe_sub four_decimals r.fee_on_interest
  supply_rate ← safe_mul u128_max gross after_fee
  yearly ← safe_mul u128_max r.supply_exchange_price supply_rate
  grown ← safe_mul u128_max yearly seconds
  year ← safe_mul u128_max seconds_per_year four_decimals
  per_year ← safe_div grown year
  square ← safe_mul u128_max four_decimals four_decimals
  growth ← safe_div per_year square
  safe_add u128_max r.supply_exchange_price growth

-- The supply price at the end of `seconds`, with the ratio of the suppliers.
unfoldable pub supply_price_at : TokenReserve → ℕ → ℕ → Result ℕ
supply_price_at r seconds supply_ratio =
    if ltb r.total_supply_with_interest r.total_supply_interest_free && supply_ratio == 0
    then ok r.supply_exchange_price
    else grown_supply_price r seconds supply_ratio

-- The supply price at the end of `seconds`: without suppliers that earn it stays as it is.
unfoldable pub next_supply_price : TokenReserve → ℕ → Result ℕ
next_supply_price r seconds =
    if r.total_supply_with_interest == 0
    then ok r.supply_exchange_price
    else get_supply_ratio r >>= supply_price_at r seconds

-- Both prices after `seconds` with interest.
unfoldable pub new_prices : TokenReserve → ℕ → Result (ℕ × ℕ)
new_prices r seconds = do
  borrow_price ← grown_borrow_price r seconds
  supply_price ← next_supply_price r seconds
  ok (supply_price, borrow_price)

-- The supply price and the borrow price at the time `now`.
unfoldable pub calculate_exchange_prices : ℤ → TokenReserve → Result (ℕ × ℕ)
calculate_exchange_prices now r = do
  fail_if (r.supply_exchange_price == 0 || r.borrow_exchange_price == 0)
      (liquidity exchange_price_zero)
  t ← cast_to_unsigned u128_max now
  seconds ← safe_sub t r.last_update_timestamp
  if seconds == 0 || r.borrow_rate == 0 || r.total_borrow_with_interest == 0
      then ok (r.supply_exchange_price, r.borrow_exchange_price)
      else new_prices r seconds

-- The prices, stored with the time.
unfoldable pub update_exchange_price : ℤ → TokenReserve → Result (ℕ × ℕ × TokenReserve)
update_exchange_price now r = do
  (supply_price, borrow_price) ← calculate_exchange_prices now r
  s ← cast u64_max supply_price
  b ← cast u64_max borrow_price
  t ← timestamp now
  ok (
    supply_price,
    borrow_price,
    record r { supply_exchange_price = s; borrow_exchange_price = b; last_update_timestamp = t },
  )
