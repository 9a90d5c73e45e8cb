-- ===== src/Flashloan/Balance.antt =====
-- The tokens that a loan and its payback move (`flashloan_borrow` and `flashloan_payback` of
-- `programs/flashloan/src/lib.rs`), by the balance of the vault and the debt of the flashloan program
-- at the liquidity program.
use fluid_solana_programs.Base.{ℕ, ◌+◌, ◌≤◌, ◌≡◌, arith, List}
use fluid_solana_programs.Base.Int.{ℤ, pos, negsuc, pos_part, neg_part}
use fluid_solana_programs.Base.Errors.{flashloan, flashloan_paused}
use fluid_solana_programs.Base.Result.{ok, >>=-eq-ok, passed, ok-pair}
use fluid_solana_programs.Math.Words.{i128_max, u64_max}
use fluid_solana_programs.Math.Casting.{cast_to_signed, cast_to_signed-eq-ok}
use fluid_solana_programs.Math.SafeMath.{safe_add-eq-ok}
use fluid_solana_programs.Math.Signed
use fluid_solana_programs.Liquidity.Constants.{Pubkey}
use fluid_solana_programs.Flashloan.{
  FlashloanAdmin, is_paused, set_flashloan_as_active, set_flashloan_as_inactive,
  get_expected_payback_amount, calculate_flashloan_fee,
}
use fluid_solana_programs.Flashloan.Validate.{
  Instruction, validate_flashloan, validate_flashloan_payback,
}
use fluid_solana_programs.Flashloan.Instructions.{
  OperateInstructionParams, Calls, Context, lend, return_loan, flashloan_borrow, flashloan_payback,
}

payback_amount-same :
    (height active amount : ℕ)
    → validate_flashloan_payback height active amount ≡ ok tt
    → amount ≡ active
unfolding validate_flashloan_payback
payback_amount-same height active amount run = ground (arith, run)

expected-le :
    (amount : ℕ) (a : FlashloanAdmin) {with_fee : ℕ}
    → get_expected_payback_amount amount a ≡ ok with_fee
    → amount ≤ with_fee
unfolding get_expected_payback_amount
expected-le amount a run =
    let (fee, _, last) = >>=-eq-ok (calculate_flashloan_fee amount a) _ run in
    let (sum, _) = safe_add-eq-ok u64_max amount fee last in omega (arith, sum)

negated :
    (n : ℕ) {a b : ℤ}
    → a ≡ pos n
    → Signed.safe_mul i128_max a (negsuc 0) ≡ ok b
    → (pos_part b ≡ 0) × (neg_part b ≡ n)
unfolding Signed.safe_mul
negated n is_n run = ground (arith, is_n, run)

module _ {W : Type 0} (calls : Calls W) (vault debt : W → ℕ)
    (operates : (params : OperateInstructionParams) (w v : W)
      → calls.operate_with_signer params w ≡ ok v
      → (vault v + pos_part params.borrow_amount ≡ vault w)
        × (debt v + neg_part params.borrow_amount ≡ debt w + pos_part params.borrow_amount))
    (transfers : (amount : ℕ) (w v : W)
      → calls.transfer_spl_tokens amount w ≡ ok v
      → (vault v ≡ vault w + amount) × (debt v ≡ debt w))
    (prepares : (mint : Pubkey) (w v : W)
      → calls.pre_operate_with_signer mint w ≡ ok v
      → (vault v ≡ vault w) × (debt v ≡ debt w))
    (c : Context) where
  lend-moves :
      (amount : ℕ) (w : W) {v : W}
      → lend calls c amount w ≡ ok v
      → (vault v + amount ≡ vault w) × (debt v ≡ debt w + amount)
  unfolding lend
  lend-moves amount w {v} run =
      let (borrow_amount, cast, last) = >>=-eq-ok (cast_to_signed i128_max amount) _ run in
      let (is_amount, _) = cast_to_signed-eq-ok i128_max amount cast in
      let moved = operates _ w v last in ground (arith, is_amount, moved)

  return_loan-moves :
      (active with_fee : ℕ) (w : W) {v : W}
      → return_loan calls c active with_fee w ≡ ok v
      → (vault v ≡ vault w + with_fee) × (debt v + active ≡ debt w)
  unfolding return_loan
  return_loan-moves active with_fee w {v} run =
      let (prepared, run_prepare, run₁) =
        >>=-eq-ok (calls.pre_operate_with_signer c.mint w) _ run in
      let (paid, run_pay, run₂) = >>=-eq-ok (calls.transfer_spl_tokens with_fee prepared) _ run₁ in
      let (active_amount, cast, run₃) = >>=-eq-ok (cast_to_signed i128_max active) _ run₂ in
      let (borrow_amount, run_neg, last) =
        >>=-eq-ok (Signed.safe_mul i128_max active_amount (negsuc 0)) _ run₃ in
      let (is_active, _) = cast_to_signed-eq-ok i128_max active cast in
      let (none_lent, all_back) = negated active is_active run_neg in
      let (vault₁, debt₁) = prepares c.mint w prepared run_prepare in
      let (vault₂, debt₂) = transfers with_fee prepared paid run_pay in
      let (vault₃, debt₃) = operates _ paid v last in (omega arith, omega arith)

  pub flashloan_borrow-moves :
      (ix : Instruction) (later : List Instruction) (amount : ℕ) (a : FlashloanAdmin) (w : W)
      {t : FlashloanAdmin × W}
      → flashloan_borrow calls c ix later amount a w ≡ ok t
      → (vault t.1 + amount ≡ vault w) × (debt t.1 ≡ debt w + amount)
  unfolding flashloan_borrow
  flashloan_borrow-moves ix later amount a w {t} run =
      let (_, _, run₁) =
        >>=-eq-ok (validate_flashloan c.program_id c.accounts c.stack_height ix amount later) _
          run in
      let (_, run₂) = passed (is_paused a) (flashloan flashloan_paused) run₁ in
      let (active, _, run₃) = >>=-eq-ok (set_flashloan_as_active c.now amount a) _ run₂ in
      let (lent, run_lend, last) = >>=-eq-ok (lend calls c amount w) _ run₃ in
      let (_, same) = ok-pair last in rw (← same) (lend-moves amount w run_lend)

  pub flashloan_payback-moves :
      (amount : ℕ) (a : FlashloanAdmin) (w : W) {t : FlashloanAdmin × W}
      → flashloan_payback calls c amount a w ≡ ok t
      → (vault w + a.active_flashloan_amount ≤ vault t.1)
        × (debt t.1 + a.active_flashloan_amount ≡ debt w)
  unfolding flashloan_payback
  flashloan_payback-moves amount a w {t} run =
      let (_, valid, run₁) =
        >>=-eq-ok (validate_flashloan_payback c.stack_height a.active_flashloan_amount amount) _
          run in
      let (_, run₂) = passed (is_paused a) (flashloan flashloan_paused) run₁ in
      let (with_fee, expected, run₃) = >>=-eq-ok (get_expected_payback_amount amount a) _ run₂ in
      let (world, returned, run₄) =
        >>=-eq-ok (return_loan calls c a.active_flashloan_amount with_fee w) _ run₃ in
      let (inactive, _, last) = >>=-eq-ok (set_flashloan_as_inactive a) _ run₄ in
      let (_, same) = ok-pair last in
      let same_amount = payback_amount-same c.stack_height a.active_flashloan_amount amount valid in
      let enough = expected-le amount a expected in
      let (vault', debt') = return_loan-moves a.active_flashloan_amount with_fee w returned in
      rw (← same) (omega (arith, same_amount, enough, vault'), debt')
