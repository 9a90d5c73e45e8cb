-- ===== src/Liquidity/SupplyPosition/Limits.antt =====
-- The withdrawal limit: how it expands with time, and that no withdrawal passes it.
use Prim.Native.Nat.{max}
use fluid_solana_programs.Base.{
  ℕ, ◌+◌, ◌-◌, ◌*◌, ◌/◌, ◌^◌, ◌≤◌, ◌<◌, ◌≡◌, ◌≢◌, arith, false, ◌&&◌, ltb, ◌⊎◌,
}
use fluid_solana_programs.Base.Int.{ℤ, pos, pos_part, is_neg}
use fluid_solana_programs.Base.Result.{Result, ok, err, Ensures}
use fluid_solana_programs.Math.Casting.{cast, cast_to_unsigned}
use fluid_solana_programs.Math.SafeMath
use fluid_solana_programs.Liquidity.Clock.{timestamp, time_since}
use fluid_solana_programs.Liquidity.SupplyPosition.{
  UserSupplyPosition, max_withdrawable, calc_withdrawal_limit_before_operate,
  calc_withdrawal_limit_after_operate, apply_amount, supply_or_withdraw, set_amount,
  set_withdrawal_limit,
}

-- The limit that `calc_withdrawal_limit_before_operate` finds, 0 where it fails.
abbrev pub current_limit : ℤ → UserSupplyPosition → ℕ
current_limit now p = elim (calc_withdrawal_limit_before_operate now p) [ ok r ↦ r.0 | err _ ↦ 0 ]

-- The part of `amount` that is withdrawable at full expansion.
abbrev pub most : UserSupplyPosition → ℕ → ℕ
most p amount = amount * p.expand_pct / 10 ^ 4

max_withdrawable-Ensures :
    (p : UserSupplyPosition) (amount : ℕ)
    → Ensures (λ m. m ≡ most p amount) (max_withdrawable p amount)
unfolding max_withdrawable SafeMath.safe_mul SafeMath.safe_div
max_withdrawable-Ensures p amount = ground arith

-- The amount that comes back with the limit is that of the position.
abbrev amount_of : ℕ → Result (ℕ × ℕ) → ℕ
amount_of other (ok r) = r.1
amount_of other (err _) = other

before_amount :
    (now : ℤ) (p : UserSupplyPosition)
    → amount_of p.amount (calc_withdrawal_limit_before_operate now p) ≡ p.amount
unfolding calc_withdrawal_limit_before_operate
before_amount now p = ground arith

-- What a successful call has done, step by step.
abbrev pub Done : ℤ → ℤ → ℕ → UserSupplyPosition → ℤ → ℤ → UserSupplyPosition → Type 0
Done now a price p raw free q =
    (p.status ≡ 0)
    × (calc_withdrawal_limit_before_operate now p ≡ ok (current_limit now p, p.amount))
    × (apply_amount a price p p.amount ≡ ok (raw, free, q.amount))
    × ((is_neg a && ltb q.amount (current_limit now p)) ≡ false)
    × (calc_withdrawal_limit_after_operate p q.amount (current_limit now p) ≡ ok q.withdrawal_limit)
    × (now ≡ pos q.last_update)
    × (q ≡ record p {
      amount = q.amount;
      withdrawal_limit = q.withdrawal_limit;
      last_update = q.last_update;
    })

pub done :
    (now a : ℤ) (price : ℕ) (p : UserSupplyPosition) {raw free : ℤ} {q : UserSupplyPosition}
    → supply_or_withdraw now a price p ≡ ok (raw, free, q)
    → Done now a price p raw free q
unfolding supply_or_withdraw set_amount set_withdrawal_limit cast timestamp cast_to_unsigned
done now a price p h = ground (arith, before_amount now p)

-- The seconds since the last update.
abbrev pub since : ℤ → UserSupplyPosition → ℕ
since now p = pos_part now - p.last_update

-- The limit before an operation: 0 stays 0; any other falls with the time, down to what full
-- expansion leaves.
pub expanded :
    (now : ℤ) (p : UserSupplyPosition) {limit before : ℕ}
    → calc_withdrawal_limit_before_operate now p ≡ ok (limit, before)
    → ((p.withdrawal_limit ≡ 0) × (limit ≡ 0))
      ⊎ ((p.withdrawal_limit ≢ 0)
          × (now ≡ pos (p.last_update + since now p))
          × (most p p.amount ≤ p.amount)
          × (limit
              ≡ max
                  (p.withdrawal_limit - most p p.amount * since now p / p.expand_duration)
                  (p.amount - most p p.amount)))
unfolding calc_withdrawal_limit_before_operate SafeMath.safe_mul SafeMath.safe_div SafeMath.safe_sub
    max_withdrawable time_since
expanded now p h = ground arith

pub after-eq-ok :
    (p : UserSupplyPosition) (amount limit : ℕ) {l : ℕ}
    → calc_withdrawal_limit_after_operate p amount limit ≡ ok l
    → ((amount < p.base_withdrawal_limit) × (l ≡ 0))
      ⊎ ((p.base_withdrawal_limit ≤ amount) × (l ≡ max limit (amount - most p amount)))
unfolding calc_withdrawal_limit_after_operate SafeMath.safe_mul SafeMath.safe_div SafeMath.safe_sub
    max_withdrawable
after-eq-ok p amount limit h = ground arith
