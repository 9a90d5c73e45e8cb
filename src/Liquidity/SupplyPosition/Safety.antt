-- ===== src/Liquidity/SupplyPosition/Safety.antt =====
-- What `supply_or_withdraw` guarantees: the rate limit of withdrawals, the invariant of the stored
-- limit over any run of calls, and that rounding never favours the user.
use native.Mathlib.Nat.{div-mul-le_self, le_of_mul-le-mul_right, le_trans}
use fluid_solana_programs.Base.{ℕ, zero, suc, ◌+◌, ◌-◌, ◌*◌, ◌/◌, ◌^◌, ◌≤◌, ◌<◌, ◌≡◌, ◌≢◌, arith}
use fluid_solana_programs.Base.Int.{ℤ, pos, negsuc, nat_abs}
use fluid_solana_programs.Base.Errors.{liquidity, user_paused}
use fluid_solana_programs.Base.Result.{ok, err}
use fluid_solana_programs.Liquidity.SupplyPosition.{UserSupplyPosition, supply_or_withdraw}
use fluid_solana_programs.Liquidity.SupplyPosition.Amounts.{
  apply_supply, apply_withdraw, apply_grows, Supplied, Withdrawn,
}
use fluid_solana_programs.Liquidity.SupplyPosition.Limits.{
  current_limit, most, since, done, expanded, after-eq-ok,
}

-- A position that is not active refuses every amount.
pub inactive_supply_refused :
    (now a : ℤ) (price : ℕ) (p : UserSupplyPosition)
    → p.status ≢ 0
    → supply_or_withdraw now a price p ≡ err (liquidity user_paused)
unfolding supply_or_withdraw
inactive_supply_refused now a price p h = ground arith

-- A withdrawal leaves at least the limit that holds at its time.
withdraw_above :
    (now : ℤ) (n price : ℕ) (p : UserSupplyPosition) {raw free : ℤ} {q : UserSupplyPosition}
    → supply_or_withdraw now (negsuc n) price p ≡ ok (raw, free, q)
    → current_limit now p ≤ q.amount
withdraw_above now n price p h = let d = done now (negsuc n) price p h in ground (arith, d.3)

-- The rate limit of withdrawals. Where a limit is stored, one withdrawal takes at most what full
-- expansion allows, and brings the amount at most as far below the stored limit as the expansion
-- of the seconds since the last update.
pub withdraw_rate_limit :
    (now : ℤ) (n price : ℕ) (p : UserSupplyPosition) {raw free : ℤ} {q : UserSupplyPosition}
    → p.withdrawal_limit ≢ 0
    → supply_or_withdraw now (negsuc n) price p ≡ ok (raw, free, q)
    → (p.amount ≤ q.amount + most p p.amount)
      × (p.withdrawal_limit ≤ q.amount + most p p.amount * since now p / p.expand_duration)
withdraw_rate_limit now n price p set h =
    let d = done now (negsuc n) price p h in
    ground (arith, expanded now p d.1, withdraw_above now n price p h)

-- The stored limit is never above the amount.
abbrev pub IsValid : UserSupplyPosition → Type 0
IsValid p = p.withdrawal_limit ≤ p.amount

valid_limit :
    (now a : ℤ) (price : ℕ) (p : UserSupplyPosition) {raw free : ℤ} {q : UserSupplyPosition}
    → IsValid p
    → supply_or_withdraw now a price p ≡ ok (raw, free, q)
    → current_limit now p ≤ p.amount
valid_limit now a price p v h = let d = done now a price p h in ground (arith, expanded now p d.1)

limit_after :
    (now a : ℤ) (price : ℕ) (p : UserSupplyPosition) {raw free : ℤ} {q : UserSupplyPosition}
    → current_limit now p ≤ q.amount
    → supply_or_withdraw now a price p ≡ ok (raw, free, q)
    → IsValid q
limit_after now a price p {q = q} l h =
    let d = done now a price p h in ground (arith, after-eq-ok p q.amount (current_limit now p) d.4)

-- Every successful call keeps the invariant of the stored limit.
pub supply_or_withdraw-IsValid :
    (now a : ℤ) (price : ℕ) (p : UserSupplyPosition) {raw free : ℤ} {q : UserSupplyPosition}
    → IsValid p
    → supply_or_withdraw now a price p ≡ ok (raw, free, q)
    → IsValid q
supply_or_withdraw-IsValid now (negsuc n) price p v h =
    limit_after now (negsuc n) price p (withdraw_above now n price p h) h
supply_or_withdraw-IsValid now (pos n) price p v h =
    let d = done now (pos n) price p h in
    limit_after now (pos n) price p
      (le_trans (valid_limit now (pos n) price p v h) (apply_grows n price p p.amount n d.2)) h

-- Any run of successful calls.
pub data Run (p : UserSupplyPosition) : UserSupplyPosition → Type 0 where
  here : Run p p
  next :
      {q r : UserSupplyPosition} (now a : ℤ) (price : ℕ) (raw free : ℤ)
      → Run p q
      → supply_or_withdraw now a price q ≡ ok (raw, free, r)
      → Run p r

-- Over any run of successful calls the stored limit stays at or below the amount.
pub Run-IsValid : {p q : UserSupplyPosition} → IsValid p → Run p q → IsValid q
Run-IsValid v here = v
Run-IsValid v (next {q} now a price raw free r h) =
    supply_or_withdraw-IsValid now a price q (Run-IsValid v r) h

-- With interest, a supply credits more than nothing and at most what it brings, valued at the
-- exchange price.
pub supply_rounds_down :
    (now : ℤ) (n price : ℕ) (p : UserSupplyPosition) {raw free : ℤ} {q : UserSupplyPosition}
    → p.with_interest ≡ 1
    → supply_or_withdraw now (pos (suc n)) price p ≡ ok (raw, free, q)
    → (p.amount < q.amount) × ((q.amount - p.amount) * price ≤ suc n * 10 ^ 12)
supply_rounds_down now n price p {q = q} mode h =
    let d = done now (pos (suc n)) price p h in
    let s : Supplied n price p.amount _ _ q.amount = apply_supply n price p p.amount mode d.2 in
    let e : q.amount - p.amount ≡ suc n * 10 ^ 12 / price = omega arith in
    (omega arith, rw e (div-mul-le_self (suc n * 10 ^ 12) price))

positive_price : (k price n : ℕ) → suc n * 10 ^ 12 ≤ k * price → 0 < price
positive_price k zero n h = absurd (omega arith)
positive_price k (suc price) n h = omega arith

-- With interest, a withdrawal debits at least what it takes, valued at the exchange price.
pub withdraw_rounds_up :
    (now : ℤ) (n price : ℕ) (p : UserSupplyPosition) {raw free : ℤ} {q : UserSupplyPosition}
    → p.with_interest ≡ 1
    → supply_or_withdraw now (negsuc n) price p ≡ ok (raw, free, q)
    → (q.amount ≤ p.amount) × (suc n * 10 ^ 12 ≤ (p.amount - q.amount) * price)
withdraw_rounds_up now n price p {raw} {q = q} mode h =
    let d = done now (negsuc n) price p h in
    let w : Withdrawn n price p.amount _ _ q.amount = apply_withdraw n price p p.amount mode d.2 in
    let e : p.amount - q.amount ≡ nat_abs raw = omega arith in (omega arith, rw e w.3)

-- Supplying an amount and withdrawing the same amount at the same exchange price gains nothing.
pub supply-withdraw_no_gain :
    (now later : ℤ) (n price : ℕ) (p q r : UserSupplyPosition) (raw free raw' free' : ℤ)
    → p.with_interest ≡ 1
    → supply_or_withdraw now (pos (suc n)) price p ≡ ok (raw, free, q)
    → supply_or_withdraw later (negsuc n) price q ≡ ok (raw', free', r)
    → r.amount ≤ p.amount
supply-withdraw_no_gain now later n price p q r raw free raw' free' mode h k =
    let still : q.with_interest ≡ 1 = ground (arith, (done now (pos (suc n)) price p h).6) in
    let up = supply_rounds_down now n price p mode h in
    let down = withdraw_rounds_up later n price q still k in
    let worth : (q.amount - p.amount) * price ≤ (q.amount - r.amount) * price =
      le_trans up.1 down.1 in
    let price_pos : 0 < price = positive_price (q.amount - r.amount) price n down.1 in
    let gain : q.amount - p.amount ≤ q.amount - r.amount = le_of_mul-le-mul_right worth price_pos in
    omega arith
