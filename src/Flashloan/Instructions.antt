-- ===== src/Flashloan/Instructions.antt =====
-- `flashloan_borrow` and `flashloan_payback` of `programs/flashloan/src/lib.rs`. The state of all other
-- programs is a parameter, and so are the calls into the liquidity program and the token program.
use fluid_solana_programs.Base.{ℕ, List}
use fluid_solana_programs.Base.Int.{ℤ, pos, negsuc}
use fluid_solana_programs.Base.Errors.{flashloan, flashloan_paused}
use fluid_solana_programs.Base.Result.{Result, ok, ◌>>=◌, ◌>>◌, fail_if}
use fluid_solana_programs.Math.Words.{i128_max}
use fluid_solana_programs.Math.Casting.{cast_to_signed}
use fluid_solana_programs.Math.Signed
use fluid_solana_programs.Liquidity.Constants.{Pubkey}
use fluid_solana_programs.Flashloan.{
  FlashloanAdmin, is_paused, set_flashloan_as_active, set_flashloan_as_inactive,
  get_expected_payback_amount,
}
use fluid_solana_programs.Flashloan.Validate.{
  Instruction, validate_flashloan, validate_flashloan_payback,
}

pub record OperateInstructionParams : Type 0 where
  pub supply_amount : ℤ
  pub borrow_amount : ℤ
  pub withdraw_to : Pubkey
  pub borrow_to : Pubkey

-- The context of an instruction: the program's id, the accounts, the stack height and the clock.
pub record Context : Type 0 where
  pub program_id : Pubkey
  pub accounts : List Pubkey
  pub signer : Pubkey
  pub liquidity : Pubkey
  pub mint : Pubkey
  pub stack_height : ℕ
  pub now : ℤ

-- The calls into other programs, on their state `W`.
pub record Calls (W : Type 0) : Type 0 where
  pub pre_operate_with_signer : Pubkey → W → Result W
  pub transfer_spl_tokens : ℕ → W → Result W
  pub operate_with_signer : OperateInstructionParams → W → Result W

module _ {W : Type 0} (calls : Calls W) (c : Context) where
  -- The call into the liquidity program that lends the amount to the signer.
  unfoldable pub lend : ℕ → W → Result W
  lend amount w = do
    borrow_amount ← cast_to_signed i128_max amount
    calls.operate_with_signer
        (record {
          supply_amount = pos 0;
          borrow_amount = borrow_amount;
          withdraw_to = c.liquidity;
          borrow_to = c.signer;
        })
        w

  unfoldable pub flashloan_borrow :
      Instruction → List Instruction → ℕ → FlashloanAdmin → W → Result (FlashloanAdmin × W)
  flashloan_borrow current_ixs later amount a w = do
    validate_flashloan c.program_id c.accounts c.stack_height current_ixs amount later
    fail_if (is_paused a) (flashloan flashloan_paused)
    active ← set_flashloan_as_active c.now amount a
    lent ← lend amount w
    ok (active, lent)

  -- The transfer of the amount with the fee, and the calls into the liquidity program around it.
  unfoldable pub return_loan : ℕ → ℕ → W → Result W
  return_loan active_flashloan_amount amount_with_fee w = do
    prepared ← calls.pre_operate_with_signer c.mint w
    paid ← calls.transfer_spl_tokens amount_with_fee prepared
    active_amount ← cast_to_signed i128_max active_flashloan_amount
    borrow_amount ← Signed.safe_mul i128_max active_amount (negsuc 0)
    calls.operate_with_signer
        (record {
          supply_amount = pos 0;
          borrow_amount = borrow_amount;
          withdraw_to = c.liquidity;
          borrow_to = c.liquidity;
        })
        paid

  unfoldable pub flashloan_payback : ℕ → FlashloanAdmin → W → Result (FlashloanAdmin × W)
  flashloan_payback amount a w = do
    validate_flashloan_payback c.stack_height a.active_flashloan_amount amount
    fail_if (is_paused a) (flashloan flashloan_paused)
    amount_with_fee ← get_expected_payback_amount amount a
    returned ← return_loan a.active_flashloan_amount amount_with_fee w
    inactive ← set_flashloan_as_inactive a
    ok (inactive, returned)
