-- ===== src/Liquidity/BorrowPosition/Safety.antt =====
-- What `borrow_or_payback` guarantees: the rate limit of borrows, the hard ceiling over any run of
-- calls, and that rounding never favours the user.
use native.Mathlib.Nat.{div-mul-le_self, le_of_mul-le-mul_right, le_trans}
use fluid_solana_programs.Base.{
  ℕ, zero, suc, ◌+◌, ◌-◌, ◌*◌, ◌/◌, ◌^◌, ◌≤◌, ◌<◌, ◌≡◌, ◌≢◌, refl, arith, true, ◌⊎◌, inl, inr,
  Bool-cases,
}
use fluid_solana_programs.Base.Int.{ℤ, pos, negsuc, nat_abs, is_pos}
use fluid_solana_programs.Base.Errors.{liquidity, user_paused}
use fluid_solana_programs.Base.Result.{ok, err}
use fluid_solana_programs.Liquidity.BorrowPosition.{UserBorrowPosition, borrow_or_payback}
use fluid_solana_programs.Liquidity.BorrowPosition.Amounts.{
  apply_borrow, apply_payback, apply_shrinks, Borrowed, PaidBack,
}
use fluid_solana_programs.Liquidity.BorrowPosition.Limits.{
  current_limit, most, since, done, expanded,
}

-- A position that is not active refuses every amount.
pub inactive_borrow_refused :
    (now a : ℤ) (price : ℕ) (p : UserBorrowPosition)
    → p.status ≢ 0
    → borrow_or_payback now a price p ≡ err (liquidity user_paused)
unfolding borrow_or_payback
inactive_borrow_refused now a price p h = ground arith

-- A borrow stays within the limit that holds at its time.
borrow_below :
    (now a : ℤ) (price : ℕ) (p : UserBorrowPosition) {raw free : ℤ} {q : UserBorrowPosition}
    → is_pos a ≡ true
    → borrow_or_payback now a price p ≡ ok (raw, free, q)
    → q.amount ≤ current_limit now p
borrow_below now a price p up h = let d = done now a price p h in ground (arith, d.3)

-- The rate limit of borrows. After a borrow the debt is within the base limit; or it is within the
-- hard ceiling, within full expansion from the debt before, and within the stored limit and the
-- expansion of the seconds since the last update.
pub borrow_rate_limit :
    (now : ℤ) (n price : ℕ) (p : UserBorrowPosition) {raw free : ℤ} {q : UserBorrowPosition}
    → borrow_or_payback now (pos (suc n)) price p ≡ ok (raw, free, q)
    → (q.amount ≤ p.base_debt_ceiling)
      ⊎ ((q.amount ≤ p.max_debt_ceiling)
          × (q.amount ≤ p.amount + most p p.amount)
          × (q.amount ≤ p.debt_ceiling + most p p.amount * since now p / p.expand_duration))
borrow_rate_limit now n price p h =
    let d = done now (pos (suc n)) price p h in
    ground
      (arith, expanded now p p.amount d.1, borrow_below now (pos (suc n)) price p (ground arith) h)

-- The base limit is within the hard ceiling, as the configuration demands, and the debt is too.
pub record IsCapped (p : UserBorrowPosition) : Type 0 where
  pub base_le : p.base_debt_ceiling ≤ p.max_debt_ceiling
  pub amount_le : p.amount ≤ p.max_debt_ceiling

-- Every successful call keeps the debt within the hard ceiling.
pub borrow_or_payback-IsCapped :
    (now a : ℤ) (price : ℕ) (p : UserBorrowPosition) {raw free : ℤ} {q : UserBorrowPosition}
    → IsCapped p
    → borrow_or_payback now a price p ≡ ok (raw, free, q)
    → IsCapped q
borrow_or_payback-IsCapped now a price p {q = q} v h =
    let d = done now a price p h in
    elim (Bool-cases (is_pos a)) [
      | inl up ↦ ground (arith, expanded now p p.amount d.1, borrow_below now a price p up h, d.6)
      | inr down ↦ ground (arith, apply_shrinks 0 price p p.amount a down d.2, d.6)
    ]

-- Any run of successful calls.
pub data Run (p : UserBorrowPosition) : UserBorrowPosition → Type 0 where
  here : Run p p
  next :
      {q r : UserBorrowPosition} (now a : ℤ) (price : ℕ) (raw free : ℤ)
      → Run p q
      → borrow_or_payback now a price q ≡ ok (raw, free, r)
      → Run p r

-- Over any run of successful calls the debt stays within the hard ceiling of the position.
pub Run-le-max_debt_ceiling :
    {p q : UserBorrowPosition}
    → IsCapped p
    → Run p q
    → IsCapped q × (q.max_debt_ceiling ≡ p.max_debt_ceiling)
Run-le-max_debt_ceiling v here = (v, refl)
Run-le-max_debt_ceiling v (next {q} now a price raw free r h) =
    let (w, same) = Run-le-max_debt_ceiling v r in
    let d = done now a price q h in
    (borrow_or_payback-IsCapped now a price q w h, ground (arith, d.6))

positive_price : (k price n : ℕ) → suc n * 10 ^ 12 ≤ k * price → 0 < price
positive_price k zero n h = absurd (omega arith)
positive_price k (suc price) n h = omega arith

positive_amount : (k price n : ℕ) → suc n * 10 ^ 12 ≤ k * price → 0 < k
positive_amount zero price n h = absurd (omega arith)
positive_amount (suc k) price n h = omega arith

-- With interest, a borrow debits at least what it takes, valued at the exchange price.
pub borrow_rounds_up :
    (now : ℤ) (n price : ℕ) (p : UserBorrowPosition) {raw free : ℤ} {q : UserBorrowPosition}
    → p.with_interest ≡ 1
    → borrow_or_payback now (pos (suc n)) price p ≡ ok (raw, free, q)
    → (p.amount < q.amount) × (suc n * 10 ^ 12 ≤ (q.amount - p.amount) * price)
borrow_rounds_up now n price p {raw} {q = q} mode h =
    let d = done now (pos (suc n)) price p h in
    let b : Borrowed n price p.amount _ _ q.amount = apply_borrow n price p p.amount mode d.2 in
    let e : q.amount - p.amount ≡ nat_abs raw = omega arith in
    let worth : suc n * 10 ^ 12 ≤ (q.amount - p.amount) * price = rw e b.3 in
    let more : 0 < q.amount - p.amount = positive_amount (q.amount - p.amount) price n worth in
    (omega arith, worth)

-- With interest, a payback credits at most what it brings, valued at the exchange price.
pub payback_rounds_down :
    (now : ℤ) (n price : ℕ) (p : UserBorrowPosition) {raw free : ℤ} {q : UserBorrowPosition}
    → p.with_interest ≡ 1
    → borrow_or_payback now (negsuc n) price p ≡ ok (raw, free, q)
    → (q.amount < p.amount) × ((p.amount - q.amount) * price ≤ suc n * 10 ^ 12)
payback_rounds_down now n price p {q = q} mode h =
    let d = done now (negsuc n) price p h in
    let b : PaidBack n price p.amount _ _ q.amount = apply_payback n price p p.amount mode d.2 in
    let e : p.amount - q.amount ≡ suc n * 10 ^ 12 / price = omega arith in
    (omega arith, rw e (div-mul-le_self (suc n * 10 ^ 12) price))

-- Borrowing an amount and paying the same amount back at the same exchange price never lowers the
-- debt.
pub borrow-payback_no_gain :
    (now later : ℤ) (n price : ℕ) (p q r : UserBorrowPosition) (raw free raw' free' : ℤ)
    → p.with_interest ≡ 1
    → borrow_or_payback now (pos (suc n)) price p ≡ ok (raw, free, q)
    → borrow_or_payback later (negsuc n) price q ≡ ok (raw', free', r)
    → p.amount ≤ r.amount
borrow-payback_no_gain now later n price p q r raw free raw' free' mode h k =
    let still : q.with_interest ≡ 1 = ground (arith, (done now (pos (suc n)) price p h).6) in
    let up = borrow_rounds_up now n price p mode h in
    let down = payback_rounds_down later n price q still k in
    let worth : (q.amount - r.amount) * price ≤ (q.amount - p.amount) * price =
      le_trans down.1 up.1 in
    let price_pos : 0 < price = positive_price (q.amount - p.amount) price n up.1 in
    let gain : q.amount - r.amount ≤ q.amount - p.amount = le_of_mul-le-mul_right worth price_pos in
    omega arith
