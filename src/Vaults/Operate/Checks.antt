-- ===== src/Vaults/Operate/Checks.antt =====
-- What the checks of an `operate` promise (`programs/vaults/src/utils/operate.rs`).
use native.Mathlib.Decide.{dec_le}
use fluid_solana_programs.Base.{
  ℕ, ◌+◌, ◌-◌, ◌*◌, ◌^◌, ◌≤◌, ◌<◌, ◌≡◌, ◌↔◌, ◌⊎◌, inl, inr, refl, arith, ltb, leb, ◌==◌,
  if◌then◌else◌, Bool, true, false, not, ◌&&◌, ◌||◌,
}
use fluid_solana_programs.Base.Int.{ℤ, nat_abs}
use fluid_solana_programs.Base.Result.{ok, fail_if, >>=-eq-ok, passed}
use fluid_solana_programs.Base.Errors.{vault, vault_invalid_operate_amount}
use fluid_solana_programs.Math.Words.{i128_max}
use fluid_solana_programs.Math.Signed
use fluid_solana_programs.Vaults.Constants.{
  max_operate, max_token_decimals, min_operate, min_operate_lower_decimals_amount,
  lower_decimals_operate,
}
use fluid_solana_programs.Vaults.Common.{scale_amounts}
use fluid_solana_programs.Vaults.Operate.{
  check_if_amount_is_valid, verify_operate_amounts, is_invalid_amount,
}

-- An amount that an `operate` accepts: nothing, the whole, or an amount between the bounds.
abbrev pub IsAccepted : ℤ → ℕ → Type 0
IsAccepted amount decimals =
    (nat_abs amount ≡ 0)
    ⊎ ((i128_max < nat_abs amount)
        ⊎ ((min_operate_lower_decimals_amount ≤ nat_abs amount)
            × (nat_abs amount ≤ max_operate)
            × (lower_decimals_operate ≤ decimals → min_operate ≤ nat_abs amount)))

accepted :
    (n decimals : ℕ)
    → ((not (n == 0)
          && ltb n (
              if leb lower_decimals_operate decimals
              then min_operate
              else min_operate_lower_decimals_amount))
        || (leb n i128_max && ltb max_operate n))
      ≡ false
    → (n ≡ 0)
      ⊎ ((i128_max < n)
          ⊎ ((min_operate_lower_decimals_amount ≤ n)
              × (n ≤ max_operate)
              × (lower_decimals_operate ≤ decimals → min_operate ≤ n)))
accepted n decimals h = elim (dec_le n 0) [
  | yes none_at_all ↦ inl (omega arith)
  | no some ↦ elim (dec_le n i128_max) [
    | no whole ↦ inr (inl (omega arith))
    | yes in_word ↦ inr (inr (ground (arith, h), ground (arith, h), ground (arith, h)))
  ]
]

not_failed : (b : Bool) → fail_if b (vault vault_invalid_operate_amount) ≡ ok tt → b ≡ false
not_failed true h = cc
not_failed false h = refl

valid :
    (amount : ℤ) (decimals : ℕ)
    → check_if_amount_is_valid amount decimals ≡ ok tt
    → IsAccepted amount decimals × (is_invalid_amount amount decimals ≡ false)
unfolding check_if_amount_is_valid
valid amount decimals run =
    let fine = not_failed (is_invalid_amount amount decimals) run in
    (accepted (nat_abs amount) decimals fine, fine)

-- The bounds on the two amounts of an `operate`.
abbrev pub AreAccepted : ℤ → ℤ → ℕ → ℕ → Type 0
AreAccepted new_col new_debt col_decimals debt_decimals =
    IsAccepted new_col col_decimals
    × IsAccepted new_debt debt_decimals
    × (0 < nat_abs new_col + nat_abs new_debt)

verified-AreAccepted :
    (new_col new_debt : ℤ) (col_decimals debt_decimals : ℕ)
    → verify_operate_amounts new_col new_debt col_decimals debt_decimals ≡ ok tt
    → AreAccepted new_col new_debt col_decimals debt_decimals
unfolding verify_operate_amounts check_if_amount_is_valid
verified-AreAccepted new_col new_debt col_decimals debt_decimals run =
    let (some_amount, run₁) =
      passed (nat_abs new_col == 0 && nat_abs new_debt == 0) (vault vault_invalid_operate_amount)
        run in
    let (_, col_valid, debt_valid) =
      >>=-eq-ok (check_if_amount_is_valid new_col col_decimals) _ run₁ in
    let (col_ok, _) = valid new_col col_decimals col_valid in
    let (debt_ok, _) = valid new_debt debt_decimals debt_valid in
    (col_ok, debt_ok, ground (arith, some_amount))

valid-IsAccepted :
    (amount : ℤ) (decimals : ℕ)
    → IsAccepted amount decimals
    → check_if_amount_is_valid amount decimals ≡ ok tt
unfolding check_if_amount_is_valid
valid-IsAccepted amount decimals (inl nothing) = ground (arith, nothing)
valid-IsAccepted amount decimals (inr (inl whole)) = ground (arith, whole)
valid-IsAccepted amount decimals (inr (inr (least, most, usual))) =
    ground (arith, least, most, usual)

-- `verify_operate_amounts` succeeds exactly where one of the amounts is not zero, and each is 0, or
-- above `i128::MAX` in size (`i128::MIN`, the whole), or at most `MAX_OPERATE` and at least the minimum: 1000 for a token of 4 decimals
-- or more, else 10.
pub verify_operate_amounts-AreAccepted :
    (new_col new_debt : ℤ) (col_decimals debt_decimals : ℕ)
    → (verify_operate_amounts new_col new_debt col_decimals debt_decimals ≡ ok tt)
      ↔ AreAccepted new_col new_debt col_decimals debt_decimals
unfolding verify_operate_amounts
verify_operate_amounts-AreAccepted new_col new_debt col_decimals debt_decimals = (
  verified-AreAccepted new_col new_debt col_decimals debt_decimals,
  λ (fine : AreAccepted new_col new_debt col_decimals debt_decimals).
      let some_amount : (nat_abs new_col == 0 && nat_abs new_debt == 0) ≡ false =
        ground (arith, fine.2) in
      rw (some_amount, valid-IsAccepted new_col col_decimals fine.0)
        (valid-IsAccepted new_debt debt_decimals fine.1),
)

-- An amount in nine decimals.
abbrev pub IsScaled : ℤ → ℕ → Type 0
IsScaled amount decimals =
    (a : ℤ) × (scale_amounts amount decimals ≡ ok a)
    × (nat_abs a ≡ nat_abs amount * 10 ^ (max_token_decimals - decimals))
