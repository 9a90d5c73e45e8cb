-- ===== src/Liquidity/TokenReserve/Growth.antt =====
-- The exchange prices over time.
use fluid_solana_programs.Base.{
  ℕ, ◌+◌, ◌*◌, ◌-◌, ◌≤◌, ◌<◌, ◌≡◌, ap, arith, ◌||◌, Bool-cases, true, false, refl, sym, ◌∙◌, inl,
  inr, ◌==◌, if◌then◌else◌, ◌⊎◌,
}
use fluid_solana_programs.Base.Int.{ℤ, pos}
use fluid_solana_programs.Base.Result.{ok, ok-pair, ◌>>=◌, >>=-eq-ok, Ensures, ensures}
use fluid_solana_programs.Math.Casting.{cast_to_unsigned}
use fluid_solana_programs.Base.Result.{passed, run_if, run_else}
use fluid_solana_programs.Math.Casting.{cast_to_unsigned-eq-ok}
use fluid_solana_programs.Math.Words.{u128_max}
use fluid_solana_programs.Liquidity.Constants.{seconds_per_year, four_decimals}
use fluid_solana_programs.Math.SafeMath.{
  safe_add, safe_sub, safe_mul, safe_div_ceil, safe_mul-eq-ok, safe_div_ceil-eq-ok, safe_add-eq-ok,
  safe_sub-eq-ok,
}
use fluid_solana_programs.Liquidity.TokenReserve.{TokenReserve}
use fluid_solana_programs.Liquidity.TokenReserve.Prices.{
  get_supply_ratio, grown_borrow_price, grown_supply_price, supply_price_at, next_supply_price,
  new_prices, calculate_exchange_prices,
}

grown_borrow_price-Ensures :
    (r : TokenReserve) (seconds : ℕ)
    → Ensures (λ b. r.borrow_exchange_price ≤ b) (grown_borrow_price r seconds)
unfolding grown_borrow_price safe_add
grown_borrow_price-Ensures r seconds = ground arith

grown_supply_price-Ensures :
    (r : TokenReserve) (seconds ratio : ℕ)
    → Ensures (λ s. r.supply_exchange_price ≤ s) (grown_supply_price r seconds ratio)
unfolding grown_supply_price safe_add
grown_supply_price-Ensures r seconds ratio = ground arith

supply_price_at-eq-ok :
    (r : TokenReserve) (seconds ratio : ℕ) {s : ℕ}
    → supply_price_at r seconds ratio ≡ ok s
    → r.supply_exchange_price ≤ s
unfolding supply_price_at
supply_price_at-eq-ok r seconds ratio h = ground (arith, grown_supply_price-Ensures r seconds ratio)

-- The supply price is the stored one, or it is the one at some ratio.
next_supply_price-cases :
    (r : TokenReserve) (seconds : ℕ)
    → (next_supply_price r seconds ≡ ok r.supply_exchange_price)
      ⊎ (next_supply_price r seconds ≡ (get_supply_ratio r >>= supply_price_at r seconds))
unfolding next_supply_price
next_supply_price-cases r seconds =
    elim (r.total_supply_with_interest == 0)
      as (λ none_earn.
        ((if none_earn
            then ok r.supply_exchange_price
            else get_supply_ratio r >>= supply_price_at r seconds)
          ≡ ok r.supply_exchange_price)
        ⊎ ((if none_earn
              then ok r.supply_exchange_price
              else get_supply_ratio r >>= supply_price_at r seconds)
            ≡ (get_supply_ratio r >>= supply_price_at r seconds))) [
              | true ↦ inl refl
              | false ↦ inr refl
            ]

next_supply_price-eq-ok :
    (r : TokenReserve) (seconds : ℕ) {s : ℕ}
    → next_supply_price r seconds ≡ ok s
    → r.supply_exchange_price ≤ s
next_supply_price-eq-ok r seconds h = elim (next_supply_price-cases r seconds) [
  | inl same ↦ ground arith
  | inr earning ↦
      let (ratio, _, found) =
        >>=-eq-ok (get_supply_ratio r) (supply_price_at r seconds) (sym earning ∙ h) in
      supply_price_at-eq-ok r seconds ratio found
]

next_supply_price-Ensures :
    (r : TokenReserve) (seconds : ℕ)
    → Ensures (λ s. r.supply_exchange_price ≤ s) (next_supply_price r seconds)
next_supply_price-Ensures r seconds =
    ensures _ (next_supply_price r seconds) (λ s h. next_supply_price-eq-ok r seconds h)

new_prices-eq-ok :
    (r : TokenReserve) (seconds : ℕ) {s b : ℕ}
    → new_prices r seconds ≡ ok (s, b)
    → (r.supply_exchange_price ≤ s) × (r.borrow_exchange_price ≤ b)
unfolding new_prices
new_prices-eq-ok r seconds h =
    ground (arith, next_supply_price-Ensures r seconds, grown_borrow_price-Ensures r seconds)

-- Where the prices come back, they are the stored ones, or they are grown by the time that passed.
calculate_exchange_prices-eq-ok :
    (now : ℤ) (r : TokenReserve) {s b : ℕ}
    → calculate_exchange_prices now r ≡ ok (s, b)
    → (t : ℕ) × (now ≡ pos t)
      × (r.last_update_timestamp ≤ t)
      × (((s ≡ r.supply_exchange_price) × (b ≡ r.borrow_exchange_price))
          ⊎ (new_prices r (t - r.last_update_timestamp) ≡ ok (s, b)))
unfolding calculate_exchange_prices cast_to_unsigned safe_sub
calculate_exchange_prices-eq-ok now r h = ground arith

-- The borrow price with the interest of `seconds`, at the rate per year.
abbrev pub HasInterest : TokenReserve → ℕ → ℕ → Type 0
HasInterest r seconds b =
    ((r.total_borrow_with_interest ≡ 0) × (b ≡ r.borrow_exchange_price))
    ⊎ ((r.borrow_exchange_price ≤ b)
        × (r.borrow_exchange_price * r.borrow_rate * seconds
            ≤ (b - r.borrow_exchange_price) * (seconds_per_year * four_decimals))
        × ((b - r.borrow_exchange_price) * (seconds_per_year * four_decimals)
            < r.borrow_exchange_price * r.borrow_rate * seconds + seconds_per_year * four_decimals))

-- The same from the last update to `now`.
abbrev pub IsAccrued : ℤ → TokenReserve → ℕ → Type 0
IsAccrued now r b =
    (t : ℕ) × (now ≡ pos t)
    × (r.last_update_timestamp ≤ t)
    × HasInterest r (t - r.last_update_timestamp) b

grown_borrow_price-eq-ok :
    (r : TokenReserve) (seconds : ℕ) {b : ℕ}
    → grown_borrow_price r seconds ≡ ok b
    → (r.borrow_exchange_price ≤ b)
      × (r.borrow_exchange_price * r.borrow_rate * seconds
          ≤ (b - r.borrow_exchange_price) * (seconds_per_year * four_decimals))
      × ((b - r.borrow_exchange_price) * (seconds_per_year * four_decimals)
          < r.borrow_exchange_price * r.borrow_rate * seconds + seconds_per_year * four_decimals)
unfolding grown_borrow_price
grown_borrow_price-eq-ok r seconds {b} run =
    let (yearly, run₁, rest₁) =
      >>=-eq-ok (safe_mul u128_max r.borrow_exchange_price r.borrow_rate) _ run in
    let (scaled, run₂, rest₂) = >>=-eq-ok (safe_mul u128_max yearly seconds) _ rest₁ in
    let (year, run₃, rest₃) =
      >>=-eq-ok (safe_mul u128_max seconds_per_year four_decimals) _ rest₂ in
    let (growth, run₄, last) = >>=-eq-ok (safe_div_ceil u128_max scaled year) _ rest₃ in
    let (is_yearly, _) = safe_mul-eq-ok u128_max r.borrow_exchange_price r.borrow_rate run₁ in
    let (is_scaled, _) = safe_mul-eq-ok u128_max yearly seconds run₂ in
    let (is_year, _) = safe_mul-eq-ok u128_max seconds_per_year four_decimals run₃ in
    let (low, high, _) = safe_div_ceil-eq-ok u128_max scaled year run₄ in
    let (is_b, _) = safe_add-eq-ok u128_max r.borrow_exchange_price growth last in
    let is_growth : b - r.borrow_exchange_price ≡ growth = omega (arith, is_b) in
    let is_interest : scaled ≡ r.borrow_exchange_price * r.borrow_rate * seconds =
      is_scaled ∙ ap (λ (y : ℕ). y * seconds) is_yearly in
    (
      omega (arith, is_b),
      rw (← is_interest, is_growth, ← is_year) low,
      rw (← is_interest, is_growth, ← is_year) high,
    )

borrow_price-new :
    (r : TokenReserve) (seconds : ℕ) {s b : ℕ}
    → new_prices r seconds ≡ ok (s, b)
    → grown_borrow_price r seconds ≡ ok b
unfolding new_prices
borrow_price-new r seconds run =
    let (borrow_price, grown, rest) = >>=-eq-ok (grown_borrow_price r seconds) _ run in
    let (supply_price, _, last) = >>=-eq-ok (next_supply_price r seconds) _ rest in
    let same : borrow_price ≡ _ = (ok-pair last).1 in grown ∙ ap ok same

-- Where no time has passed, or at a rate of 0, no interest accrues.
no_interest :
    (price rate seconds debt : ℕ)
    → (seconds == 0 || rate == 0 || debt == 0) ≡ true
    → (debt ≡ 0) ⊎ (price * rate * seconds ≡ 0)
no_interest price rate seconds debt still = elim (Bool-cases (seconds == 0)) [
  | inl now ↦ let e : seconds ≡ 0 = ground (arith, now) in inr (rw e (omega arith))
  | inr later ↦ elim (Bool-cases (rate == 0)) [
    | inl free ↦ let e : rate ≡ 0 = ground (arith, free) in inr (rw e (omega arith))
    | inr paid ↦ inl (ground (arith, still, later, paid))
  ]
]

price-HasInterest :
    (r : TokenReserve) (seconds : ℕ) {s b : ℕ}
    → (if seconds == 0 || r.borrow_rate == 0 || r.total_borrow_with_interest == 0
        then ok (r.supply_exchange_price, r.borrow_exchange_price)
        else new_prices r seconds)
      ≡ ok (s, b)
    → HasInterest r seconds b
price-HasInterest r seconds {s} {b} run =
    elim (Bool-cases (seconds == 0 || r.borrow_rate == 0 || r.total_borrow_with_interest == 0)) [
      | inl still ↦
          let last =
            run_if (seconds == 0 || r.borrow_rate == 0 || r.total_borrow_with_interest == 0) _ _
              still run in
          let same : r.borrow_exchange_price ≡ b = (ok-pair last).1 in
          elim (no_interest r.borrow_exchange_price r.borrow_rate seconds
            r.total_borrow_with_interest still) [
              | inl no_debt ↦ inl (no_debt, sym same)
              | inr none ↦
                  inr (omega (arith, same), omega (arith, same, none), omega (arith, same, none))
            ]
      | inr moving ↦
          let grown =
            run_else (seconds == 0 || r.borrow_rate == 0 || r.total_borrow_with_interest == 0) _ _
              moving run in
          inr (grown_borrow_price-eq-ok r seconds (borrow_price-new r seconds grown))
    ]

pub borrow_price-IsAccrued :
    (now : ℤ) (r : TokenReserve) {s b : ℕ}
    → calculate_exchange_prices now r ≡ ok (s, b)
    → IsAccrued now r b
unfolding calculate_exchange_prices
borrow_price-IsAccrued now r {s} {b} run =
    let (_, run₁) = passed (r.supply_exchange_price == 0 || r.borrow_exchange_price == 0) _ run in
    let (t, run_t, run₂) = >>=-eq-ok (cast_to_unsigned u128_max now) _ run₁ in
    let (seconds, run_sub, run₃) = >>=-eq-ok (safe_sub t r.last_update_timestamp) _ run₂ in
    let (is_now, _) = cast_to_unsigned-eq-ok u128_max now run_t in
    let (is_seconds, ordered) = safe_sub-eq-ok t r.last_update_timestamp run_sub in
    (t, is_now, ordered, rw (← is_seconds) (price-HasInterest r seconds run₃))

-- Exchange prices never fall.
pub prices_grow :
    (now : ℤ) (r : TokenReserve) {s b : ℕ}
    → calculate_exchange_prices now r ≡ ok (s, b)
    → (r.supply_exchange_price ≤ s) × (r.borrow_exchange_price ≤ b)
prices_grow now r h =
    let (t, _, _, found) = calculate_exchange_prices-eq-ok now r h in
    elim found [
      | inl (same_s, same_b) ↦ (omega arith, omega arith)
      | inr grown ↦ new_prices-eq-ok r (t - r.last_update_timestamp) grown
    ]
