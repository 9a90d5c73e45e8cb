-- ===== src/Liquidity/BorrowPosition/Limits.antt =====
-- The borrow limit: how it expands with time, and what a successful call has done.
use Prim.Native.Nat.{min}
use fluid_solana_programs.Base.{
  ℕ, ◌+◌, ◌-◌, ◌*◌, ◌/◌, ◌^◌, ◌≤◌, ◌<◌, ◌≡◌, arith, false, ◌&&◌, ltb, ◌⊎◌,
}
use fluid_solana_programs.Base.Int.{ℤ, pos, pos_part, is_pos}
use fluid_solana_programs.Base.Result.{ok, err, >>=-eq-ok}
use fluid_solana_programs.Math.Casting.{cast, cast_to_unsigned}
use fluid_solana_programs.Math.SafeMath
use fluid_solana_programs.Math.Words.{u128_max}
use fluid_solana_programs.Liquidity.Clock.{timestamp, time_since}
use fluid_solana_programs.Liquidity.BorrowPosition.{
  UserBorrowPosition, max_expansion, grow_limit, calc_borrow_limit_before_operate,
  calc_borrow_limit_after_operate, apply_amount, borrow_or_payback, set_amount, set_debt_ceiling,
}

-- The limit that `calc_borrow_limit_before_operate` finds, 0 where it fails.
abbrev pub current_limit : ℤ → UserBorrowPosition → ℕ
current_limit now p = elim (calc_borrow_limit_before_operate now p p.amount) [
  | ok l ↦ l
  | err _ ↦ 0
]

-- How far the limit can expand above `amount`.
abbrev pub most : UserBorrowPosition → ℕ → ℕ
most p amount = amount * p.expand_pct / 10 ^ 4

-- The seconds since the last update.
abbrev pub since : ℤ → UserBorrowPosition → ℕ
since now p = pos_part now - p.last_update

-- What a successful call has done, step by step.
abbrev pub Done : ℤ → ℤ → ℕ → UserBorrowPosition → ℤ → ℤ → UserBorrowPosition → Type 0
Done now a price p raw free q =
    (p.status ≡ 0)
    × (calc_borrow_limit_before_operate now p p.amount ≡ ok (current_limit now p))
    × (apply_amount a price p p.amount ≡ ok (raw, free, q.amount))
    × ((is_pos a && ltb (current_limit now p) q.amount) ≡ false)
    × (calc_borrow_limit_after_operate p q.amount (current_limit now p) ≡ ok q.debt_ceiling)
    × (now ≡ pos q.last_update)
    × (q ≡ record p {
      amount = q.amount;
      debt_ceiling = q.debt_ceiling;
      last_update = q.last_update;
    })

pub done :
    (now a : ℤ) (price : ℕ) (p : UserBorrowPosition) {raw free : ℤ} {q : UserBorrowPosition}
    → borrow_or_payback now a price p ≡ ok (raw, free, q)
    → Done now a price p raw free q
unfolding borrow_or_payback set_amount set_debt_ceiling cast timestamp cast_to_unsigned
done now a price p h = ground arith

max_expansion-eq-ok :
    (p : UserBorrowPosition) (amount : ℕ) {e : ℕ}
    → max_expansion p amount ≡ ok e
    → e ≡ most p amount
unfolding max_expansion SafeMath.safe_mul SafeMath.safe_div
max_expansion-eq-ok p amount h = ground arith

grow_limit-eq-ok :
    (now : ℤ) (p : UserBorrowPosition) (expansion full limit : ℕ)
    → grow_limit now p expansion full ≡ ok limit
    → (now ≡ pos (p.last_update + since now p))
      × (limit
          ≡ min p.max_debt_ceiling
              (min full (p.debt_ceiling + expansion * since now p / p.expand_duration)))
unfolding grow_limit SafeMath.safe_mul SafeMath.safe_div SafeMath.safe_add time_since
grow_limit-eq-ok now p expansion full limit h = ground arith

-- The limit before an operation: the base limit, where full expansion does not reach it; else the
-- stored limit with what the time has added, up to full expansion and up to the hard ceiling.
pub expanded :
    (now : ℤ) (p : UserBorrowPosition) (amount : ℕ) {limit : ℕ}
    → calc_borrow_limit_before_operate now p amount ≡ ok limit
    → ((amount + most p amount < p.base_debt_ceiling) × (limit ≡ p.base_debt_ceiling))
      ⊎ ((p.base_debt_ceiling ≤ amount + most p amount)
          × (now ≡ pos (p.last_update + since now p))
          × (limit
              ≡ min p.max_debt_ceiling (
                  min
                    (amount + most p amount)
                    (p.debt_ceiling + most p amount * since now p / p.expand_duration))))
unfolding calc_borrow_limit_before_operate
expanded now p amount {limit} h =
    let (e, e-eq, h1) = >>=-eq-ok (max_expansion p amount) _ h in
    let (x, x-eq, h2) = >>=-eq-ok (SafeMath.safe_add u128_max amount e) _ h1 in
    let e-is : e ≡ most p amount = max_expansion-eq-ok p amount e-eq in
    let x-is : x ≡ amount + e = (SafeMath.safe_add-eq-ok u128_max amount e x-eq).0 in
    ground (arith, grow_limit-eq-ok now p e x limit)

-- The limit after an operation lies between the base limit and the hard ceiling, or is the limit
-- from before, shrunk to full expansion.
pub after-eq-ok :
    (p : UserBorrowPosition) (amount limit : ℕ) {l : ℕ}
    → calc_borrow_limit_after_operate p amount limit ≡ ok l
    → ((amount + most p amount < p.base_debt_ceiling) × (l ≡ p.base_debt_ceiling))
      ⊎ ((p.base_debt_ceiling ≤ amount + most p amount)
          × (l ≡ min limit (min p.max_debt_ceiling (amount + most p amount))))
unfolding calc_borrow_limit_after_operate SafeMath.safe_mul SafeMath.safe_div SafeMath.safe_add
    max_expansion
after-eq-ok p amount limit h = ground arith
