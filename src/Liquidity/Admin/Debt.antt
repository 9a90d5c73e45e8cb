-- ===== src/Liquidity/Admin/Debt.antt =====
-- What `update_user_borrow_config` does to the configuration and the debt of a position
-- (`programs/liquidity/src/module/admin.rs`).
use fluid_solana_programs.Base.{ℕ, ◌+◌, ◌-◌, ◌*◌, ◌^◌, ◌≤◌, ◌<◌, ◌≡◌, ◌≢◌, arith, ◌⊎◌}
use fluid_solana_programs.Base.Int.{ℤ}
use fluid_solana_programs.Base.Result.{ok, Ensures, ensures, >>=-eq-ok}
use fluid_solana_programs.Math.Casting.{cast}
use fluid_solana_programs.Math.Words.{u128_max}
use fluid_solana_programs.Math.SafeMath
use fluid_solana_programs.Liquidity.Constants.{Pubkey}
use fluid_solana_programs.Liquidity.RateModel.{RateModel}
use fluid_solana_programs.Liquidity.BorrowPosition.{UserBorrowPosition, active}
use fluid_solana_programs.Liquidity.TokenReserve.{TokenReserve}
use fluid_solana_programs.Liquidity.Admin.{
  UserBorrowConfig, check_borrow_config, set_borrow_config, convert_debt, change_mode,
  update_user_borrow_config,
}

-- The configuration is stored as it is given.
abbrev pub Stored : UserBorrowConfig → UserBorrowPosition → Type 0
Stored c q =
    (q.with_interest ≡ c.mode)
    × (q.expand_pct ≡ c.expand_percent)
    × (q.expand_duration ≡ c.expand_duration)
    × (q.base_debt_ceiling ≡ c.base_debt_ceiling)
    × (q.max_debt_ceiling ≡ c.max_debt_ceiling)

set_borrow_config-Ensures :
    (c : UserBorrowConfig) (p : UserBorrowPosition)
    → Ensures (λ q. Stored c q) (set_borrow_config c p)
unfolding set_borrow_config cast
set_borrow_config-Ensures c p = ground arith

change_mode-Ensures :
    (now : ℤ) (model : RateModel) (c : UserBorrowConfig) (r : TokenReserve) (p : UserBorrowPosition)
    → Ensures (λ t. Stored c t.1) (change_mode now model c r p)
unfolding change_mode set_borrow_config cast
change_mode-Ensures now model c r p = ground arith

-- What `check_borrow_config` admits.
abbrev pub Sound : UserBorrowConfig → Type 0
Sound c =
    (c.mode ≤ 1)
    × (0 < c.base_debt_ceiling)
    × (c.base_debt_ceiling ≤ c.max_debt_ceiling)
    × (c.expand_percent < 2 ^ 14)
    × (0 < c.expand_duration)
    × (c.expand_duration < 2 ^ 24)

check_borrow_config-Sound :
    (wsol mint : Pubkey) (total_supply : ℕ) (r : TokenReserve) (c : UserBorrowConfig) {u : Unit {0}}
    → check_borrow_config wsol mint total_supply r c ≡ ok u
    → Sound c
unfolding check_borrow_config
check_borrow_config-Sound wsol mint total_supply r c h = ground arith

ceil-Ensures :
    (a b : ℕ) → Ensures (λ c. (a ≤ c * b) × (c * b < a + b)) (SafeMath.safe_div_ceil u128_max a b)
ceil-Ensures a b =
    ensures _ (SafeMath.safe_div_ceil u128_max a b)
      (λ c h. let (low, high, _) = SafeMath.safe_div_ceil-eq-ok u128_max a b h in (low, high))

-- The conversion of a debt to the other mode rounds it up by less than a unit at the price of the
-- time, takes the old amount off the one total and adds the new one to the other.
pub convert_debt_rounds_up :
    (price : ℕ) (p : UserBorrowPosition) (r : TokenReserve) {debt ceiling raw free : ℕ}
    → convert_debt price p r ≡ ok (debt, ceiling, raw, free)
    → ((p.with_interest ≡ 1)
        × (p.amount * price ≤ debt * 10 ^ 12)
        × (debt * 10 ^ 12 < p.amount * price + 10 ^ 12)
        × (raw ≡ r.total_borrow_with_interest - p.amount)
        × (free ≡ r.total_borrow_interest_free + debt))
      ⊎ ((p.with_interest ≢ 1)
          × (p.amount * 10 ^ 12 ≤ debt * price)
          × (debt * price < p.amount * 10 ^ 12 + price)
          × (raw ≡ r.total_borrow_with_interest + debt)
          × (free ≡ r.total_borrow_interest_free - p.amount))
unfolding convert_debt SafeMath.safe_mul SafeMath.safe_add SafeMath.safe_div
convert_debt_rounds_up price p r h =
    ground
      (arith, ceil-Ensures (p.amount * price) (10 ^ 12), ceil-Ensures (p.amount * 10 ^ 12) price)

-- An accepted configuration is sound and stored as given: the base limit is positive and within the
-- hard ceiling, the percentage fits 14 bits, and the duration is positive and fits 24 bits.
pub update_user_borrow_config-Sound :
    (wsol mint : Pubkey) (total_supply : ℕ) (now : ℤ) (model : RateModel) (c : UserBorrowConfig)
    (r s : TokenReserve) (p q : UserBorrowPosition)
    → update_user_borrow_config wsol mint total_supply now model c r p ≡ ok (s, q)
    → Sound c × Stored c q
unfolding update_user_borrow_config
update_user_borrow_config-Sound wsol mint total_supply now model c r s p q h =
    let (_, checked, _) = >>=-eq-ok (check_borrow_config wsol mint total_supply r c) _ h in
    ground (
      arith,
      check_borrow_config-Sound wsol mint total_supply r c checked,
      set_borrow_config-Ensures c p,
      set_borrow_config-Ensures c (record p { status = active }),
      change_mode-Ensures now model c r p,
    )
