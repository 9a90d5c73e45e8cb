-- ===== src/Flashloan/Transaction.antt =====
-- The instructions of `programs/flashloan`, and what a loan that is given and its payback do to the
-- account of the program.
use fluid_solana_programs.Base.{ℕ, ◌≤◌, ◌≡◌, arith, ltb, ◌==◌, true, false, not, List}
use fluid_solana_programs.Base.Int.{ℤ}
use fluid_solana_programs.Base.Errors.{external, flashloan, flashloan_paused}
use fluid_solana_programs.Base.Result.{Result, ok, err, >>=-eq-ok, passed, ok-pair}
use fluid_solana_programs.Liquidity.Constants.{Pubkey}
use fluid_solana_programs.Flashloan.{
  FlashloanAdmin, min_flashloan_amount, flashloan_stack_height, is_paused, pause_protocol,
  activate_protocol, set_flashloan_fee, update_authority, get_expected_payback_amount,
  set_flashloan_as_active, set_flashloan_as_inactive,
}
use fluid_solana_programs.Flashloan.Validate.{
  Instruction, validate_flashloan, validate_flashloan_payback,
}
use fluid_solana_programs.Flashloan.Instructions.{
  Calls, Context, lend, return_loan, flashloan_borrow, flashloan_payback,
}
use fluid_solana_programs.Flashloan.Payback.{
  own, IsOnlyPayback, validate_payback_instruction_exists-IsOnlyPayback,
}

-- The instructions of the program that a transaction can hold.
pub data Call : Type 0 where
  borrow payback set_fee : ℕ → Call
  pause activate : Call
  set_authority : Pubkey → Pubkey → Pubkey → Call

-- No loan is open, or one of `amount` is.
abbrev pub IsOpen : ℕ → FlashloanAdmin → Type 0
IsOpen amount a = (a.is_flashloan_active ≡ true) × (a.active_flashloan_amount ≡ amount)

abbrev pub IsClosed : FlashloanAdmin → Type 0
IsClosed a = a.is_flashloan_active ≡ false

set_flashloan_as_active-IsOpen :
    (now : ℤ) (amount : ℕ) (a : FlashloanAdmin) {b : FlashloanAdmin}
    → set_flashloan_as_active now amount a ≡ ok b
    → IsClosed a × IsOpen amount b
unfolding set_flashloan_as_active
set_flashloan_as_active-IsOpen now amount a run = ground arith

set_flashloan_as_inactive-IsClosed :
    (a : FlashloanAdmin) {b : FlashloanAdmin}
    → set_flashloan_as_inactive a ≡ ok b
    → (a.is_flashloan_active ≡ true) × IsClosed b
unfolding set_flashloan_as_inactive
set_flashloan_as_inactive-IsClosed a run = ground arith

validate_flashloan-IsOnlyPayback :
    (program_id : Pubkey) (accounts : List Pubkey) (height : ℕ) (ix : Instruction) (amount : ℕ)
    (later : List Instruction)
    → validate_flashloan program_id accounts height ix amount later ≡ ok tt
    → (min_flashloan_amount ≤ amount) × IsOnlyPayback accounts amount (own program_id later)
unfolding validate_flashloan
validate_flashloan-IsOnlyPayback program_id accounts height ix amount later run =
    let (large, run₁) = passed (ltb amount min_flashloan_amount) _ run in
    let (_, run₂) = passed (not (ix.program_id == program_id)) _ run₁ in
    let (_, run₃) = passed (ltb flashloan_stack_height height) _ run₂ in
    (
      ground (arith, large),
      validate_payback_instruction_exists-IsOnlyPayback program_id accounts amount later run₃,
    )

abbrev pub Opens : Context → List Instruction → ℕ → FlashloanAdmin → FlashloanAdmin → Type 0
Opens c later amount a b =
    IsClosed a
    × (is_paused a ≡ false)
    × (min_flashloan_amount ≤ amount)
    × IsOpen amount b
    × IsOnlyPayback c.accounts amount (own c.program_id later)

opened :
    (c : Context) (later : List Instruction) (amount : ℕ) (a b b' : FlashloanAdmin)
    → Opens c later amount a b
    → b ≡ b'
    → Opens c later amount a b'
opened c later amount a b b' opens same = rw (← same) opens

IsClosed-after :
    (a b b' : FlashloanAdmin)
    → a.is_flashloan_active ≡ true
    → IsClosed b
    → b ≡ b'
    → (a.is_flashloan_active ≡ true) × IsClosed b'
IsClosed-after a b b' was_open closed same = (was_open, rw (← same) closed)

module _ {W : Type 0} (calls : Calls W) (c : Context) where
  -- If a loan is given: no loan was open and the program was not paused; the loan of at least 1000 is
  -- open; and of the later instructions of the transaction exactly one is for the program, which is the
  -- payback of the loan.
  pub flashloan_borrow-Opens :
      (ix : Instruction) (later : List Instruction) (amount : ℕ) (a : FlashloanAdmin) (w : W)
      {b : FlashloanAdmin} {v : W}
      → flashloan_borrow calls c ix later amount a w ≡ ok (b, v)
      → Opens c later amount a b
  unfolding flashloan_borrow
  flashloan_borrow-Opens ix later amount a w {b} run =
      let (_, valid, run₁) =
        >>=-eq-ok (validate_flashloan c.program_id c.accounts c.stack_height ix amount later) _
          run in
      let (running, run₂) = passed (is_paused a) (flashloan flashloan_paused) run₁ in
      let (active, opens, run₃) = >>=-eq-ok (set_flashloan_as_active c.now amount a) _ run₂ in
      let (lent, _, last) = >>=-eq-ok (lend calls c amount w) _ run₃ in
      let (large, only) =
        validate_flashloan-IsOnlyPayback c.program_id c.accounts c.stack_height ix amount later
          valid in
      let same = (ok-pair last).0 in
      let (closed, is_open) = set_flashloan_as_active-IsOpen c.now amount a opens in
      opened c later amount a active b (closed, running, large, is_open, only) same

  pub flashloan_payback-closes :
      (amount : ℕ) (a : FlashloanAdmin) (w : W) {b : FlashloanAdmin} {v : W}
      → flashloan_payback calls c amount a w ≡ ok (b, v)
      → (a.is_flashloan_active ≡ true) × IsClosed b
  unfolding flashloan_payback
  flashloan_payback-closes amount a w {b} run =
      let (_, _, run₁) =
        >>=-eq-ok (validate_flashloan_payback c.stack_height a.active_flashloan_amount amount) _
          run in
      let (_, run₂) = passed (is_paused a) (flashloan flashloan_paused) run₁ in
      let (with_fee, _, run₃) = >>=-eq-ok (get_expected_payback_amount amount a) _ run₂ in
      let (world, _, run₄) =
        >>=-eq-ok (return_loan calls c a.active_flashloan_amount with_fee w) _ run₃ in
      let (inactive, closes, last) = >>=-eq-ok (set_flashloan_as_inactive a) _ run₄ in
      let (was_open, closed) = set_flashloan_as_inactive-IsClosed a closes in
      let same = (ok-pair last).0 in IsClosed-after a inactive b was_open closed same

-- The administrator's instructions do not touch the loan.
unfoldable pub execute_admin : Call → FlashloanAdmin → Result FlashloanAdmin
unfolding set_flashloan_fee pause_protocol activate_protocol update_authority
execute_admin (borrow amount) a = err external
execute_admin (payback amount) a = err external
execute_admin (set_fee fee) a = set_flashloan_fee fee a
execute_admin pause a = pause_protocol a
execute_admin activate a = activate_protocol a
execute_admin (set_authority governance signer new_authority) a =
    update_authority governance signer new_authority a
