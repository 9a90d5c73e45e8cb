-- ===== src/Flashloan/Fee.antt =====
-- The fee of a loan (`programs/flashloan/src/state/state.rs`), and the payback of an open loan.
use native.Mathlib.Nat.{mul-le-mul}
use fluid_solana_programs.Base.{
  ℕ, ◌+◌, ◌*◌, ◌/◌, ◌%◌, ◌^◌, ◌≤◌, ◌<◌, ◌≡◌, refl, arith, leb, ◌==◌, true, false, ap, ◌∙◌,
  Bool-cases, inl, inr,
}
use fluid_solana_programs.Base.Result.{ok}
use fluid_solana_programs.Base.Int.{pos, negsuc, neg_ℤ}
use fluid_solana_programs.Math.Words.{u64_max, u128_max, i128_max}
use fluid_solana_programs.Math.Signed
use fluid_solana_programs.Math.Casting.{cast-le, cast_to_signed}
use fluid_solana_programs.Math.SafeMath.{safe_add, safe_mul, safe_div_ceil, safe_div_ceil-eq-ok}
use fluid_solana_programs.Flashloan.{
  FlashloanAdmin, four_decimals, flashloan_fee_max, min_flashloan_amount, is_paused,
  get_expected_payback_amount, calculate_flashloan_fee, set_flashloan_as_inactive,
}
use fluid_solana_programs.Flashloan.Validate.{validate_flashloan_payback}
use fluid_solana_programs.Flashloan.Instructions.{
  OperateInstructionParams, Calls, Context, return_loan, flashloan_payback,
}
use fluid_solana_programs.Flashloan.Transaction.{IsOpen}

ceil_succeeds : (a : ℕ) → a < u128_max → (q : ℕ) × (safe_div_ceil u128_max a four_decimals ≡ ok q)
unfolding safe_div_ceil
ceil_succeeds a h = elim (Bool-cases (a % 10000 == 0)) [
  | inl exact ↦ (a / 10000, rw exact refl)
  | inr rest ↦
      let fits : leb (a / 10000 + 1) u128_max ≡ true = ground (arith, h) in
      (a / 10000 + 1, rw (rest, fits) refl)
]

product_fits : (a b : ℕ) → a * b ≤ 2 ^ 63 * 50 → safe_mul u128_max a b ≡ ok (a * b)
unfolding safe_mul
product_fits a b h = let fits : leb (a * b) u128_max ≡ true = ground (arith, h) in rw fits refl

sum_fits : (a b : ℕ) → a + b ≤ u64_max → safe_add u64_max a b ≡ ok (a + b)
unfolding safe_add
sum_fits a b h = let fits : leb (a + b) u64_max ≡ true = ground (arith, h) in rw fits refl

payback_valid :
    (height amount : ℕ)
    → min_flashloan_amount ≤ amount
    → height ≤ 1
    → validate_flashloan_payback height amount amount ≡ ok tt
unfolding validate_flashloan_payback
payback_valid height amount large low = ground arith

fee_succeeds :
    (amount : ℕ) (a : FlashloanAdmin)
    → a.flashloan_fee ≤ flashloan_fee_max
    → amount ≤ 2 ^ 63
    → (fee : ℕ) × (calculate_flashloan_fee amount a ≡ ok fee)
      × (amount * a.flashloan_fee ≤ fee * four_decimals)
      × (fee * four_decimals < amount * a.flashloan_fee + four_decimals)
unfolding calculate_flashloan_fee
fee_succeeds amount a low small =
    let product : amount * a.flashloan_fee ≤ 2 ^ 63 * 50 = mul-le-mul small low in
    let scaled : safe_mul u128_max amount a.flashloan_fee ≡ ok (amount * a.flashloan_fee) =
      product_fits (amount) a.flashloan_fee product in
    let (fee, divided) = ceil_succeeds (amount * a.flashloan_fee) (omega arith) in
    let (least, most, _) =
      safe_div_ceil-eq-ok u128_max (amount * a.flashloan_fee) four_decimals divided in
    let in_u64 = cast-le u64_max fee (omega arith) in
    (fee, rw (scaled, divided, in_u64) refl, least, most)

-- With a fee of at most 50 and an amount of at most 2^63, the payback is computed: it is the amount and
-- the least fee that is no less than `flashloan_fee` ten thousandths of it.
pub get_expected_payback_amount-fee :
    (amount : ℕ) (a : FlashloanAdmin)
    → a.flashloan_fee ≤ flashloan_fee_max
    → amount ≤ 2 ^ 63
    → (fee : ℕ) × (get_expected_payback_amount amount a ≡ ok (amount + fee))
      × (amount * a.flashloan_fee ≤ fee * four_decimals)
      × (fee * four_decimals < amount * a.flashloan_fee + four_decimals)
unfolding get_expected_payback_amount
get_expected_payback_amount-fee amount a low small =
    let (fee, run, least, most) = fee_succeeds amount a low small in
    let product : amount * a.flashloan_fee ≤ 2 ^ 63 * 50 = mul-le-mul small low in
    let added = sum_fits amount fee (omega arith) in (fee, rw (run, added) refl, least, most)

-- The `operate` that pays back a loan: the debt falls by the amount, and nothing is withdrawn.
abbrev pub payback_of : Context → ℕ → OperateInstructionParams
payback_of c amount = record {
  supply_amount = pos 0;
  borrow_amount = neg_ℤ (pos amount);
  withdraw_to = c.liquidity;
  borrow_to = c.liquidity;
}

cast_to_signed-le : (n : ℕ) → n ≤ i128_max → cast_to_signed i128_max n ≡ ok (pos n)
unfolding cast_to_signed
cast_to_signed-le n h = ground (arith, h)

negation :
    (n : ℕ)
    → 0 < n
    → n ≤ i128_max
    → Signed.safe_mul i128_max (pos n) (negsuc 0) ≡ ok (neg_ℤ (pos n))
unfolding Signed.safe_mul
negation n p h = ground (arith, p, h)

module _ {W : Type 0} (calls : Calls W) (c : Context) where
  settled :
      (amount with_fee : ℕ) (a : FlashloanAdmin) (w v : W)
      → a.is_flashloan_active ≡ true
      → is_paused a ≡ false
      → validate_flashloan_payback c.stack_height a.active_flashloan_amount amount ≡ ok tt
      → get_expected_payback_amount amount a ≡ ok with_fee
      → return_loan calls c a.active_flashloan_amount with_fee w ≡ ok v
      → flashloan_payback calls c amount a w
        ≡ ok (record a { is_flashloan_active = false; active_flashloan_amount = 0 }, v)
  unfolding flashloan_payback set_flashloan_as_inactive
  settled amount with_fee a w v is_open running valid run returned =
      rw (valid, running, run, returned, is_open) refl

  returns :
      (amount with_fee : ℕ) (w prepared paid v : W)
      → 0 < amount
      → amount ≤ i128_max
      → calls.pre_operate_with_signer c.mint w ≡ ok prepared
      → calls.transfer_spl_tokens with_fee prepared ≡ ok paid
      → calls.operate_with_signer (payback_of c amount) paid ≡ ok v
      → return_loan calls c amount with_fee w ≡ ok v
  unfolding return_loan
  returns amount with_fee w prepared paid v some small run_prepare run_pay run_operate =
      let signed : cast_to_signed i128_max amount ≡ ok (pos amount) =
        cast_to_signed-le amount small in
      let negative = negation amount some small in
      rw (run_prepare, run_pay, signed, negative, run_operate) refl

  -- An open loan of 1000 to 2^63, with a fee of at most 50, can be paid back outside of calls from other
  -- programs while the program is not paused. For the least `fee` that is no less than `flashloan_fee`
  -- ten thousandths of the loan: where `pre_operate` for the token succeeds, then a transfer of the loan
  -- and the fee, and then an `operate` that pays back the loan, the payback succeeds with the state that
  -- these leave; no loan is open after it, and nothing else of the account changes.
  pub flashloan_payback-succeeds :
      (amount fee : ℕ) (a : FlashloanAdmin) (w prepared paid v : W)
      → IsOpen amount a
      → is_paused a ≡ false
      → a.flashloan_fee ≤ flashloan_fee_max
      → min_flashloan_amount ≤ amount
      → amount ≤ 2 ^ 63
      → c.stack_height ≤ 1
      → amount * a.flashloan_fee ≤ fee * four_decimals
      → fee * four_decimals < amount * a.flashloan_fee + four_decimals
      → calls.pre_operate_with_signer c.mint w ≡ ok prepared
      → calls.transfer_spl_tokens (amount + fee) prepared ≡ ok paid
      → calls.operate_with_signer (payback_of c amount) paid ≡ ok v
      → flashloan_payback calls c amount a w
        ≡ ok (record a { is_flashloan_active = false; active_flashloan_amount = 0 }, v)
  flashloan_payback-succeeds amount fee a w prepared paid v (is_open, same) running low large small
        height least most run_prepare run_pay run_operate =
      let (fee', run, least', most') = get_expected_payback_amount-fee amount a low small in
      let same_fee : fee' ≡ fee = omega (arith, least, most, least', most') in
      let expected = run ∙ ap (λ (x : ℕ). ok (amount + x)) same_fee in
      let returned =
        returns amount (amount + fee) w prepared paid v (omega (arith, large))
          (omega (arith, small)) run_prepare run_pay run_operate in
      let valid = payback_valid c.stack_height amount large height in
      settled amount (amount + fee) a w v is_open running
        (ap (λ (x : ℕ). validate_flashloan_payback c.stack_height x amount) same ∙ valid) expected
        (ap (λ (x : ℕ). return_loan calls c x (amount + fee) w) same ∙ returned)
