-- ===== src/Flashloan/Tests.antt =====
-- A transaction with a loan, and the theorems on it.
use fluid_solana_programs.Base.{
  ◌-◌, leb, ◌&&◌, ℕ, ◌+◌, ◌≡◌, refl, arith, if◌then◌else◌, true, false, Option, some, none, List,
  [], ◌∷◌,
}
use fluid_solana_programs.Base.Int.{pos, pos_part, neg_part}
use fluid_solana_programs.Base.Errors.{external}
use fluid_solana_programs.Base.Result.{Result, ok, err}
use fluid_solana_programs.Math.Casting.{cast_to_signed}
use fluid_solana_programs.Math.Signed
use fluid_solana_programs.Flashloan.{FlashloanAdmin, set_flashloan_as_active}
use fluid_solana_programs.Flashloan.Validate.{
  Instruction, equal, take, drop, from_le_bytes, flashloan_payback_discriminator, find_payback,
  visit, validate_flashloan, validate_payback_instruction_exists,
}
use fluid_solana_programs.Flashloan.Instructions.{
  OperateInstructionParams, Calls, Context, lend, flashloan_borrow, flashloan_payback,
}
use fluid_solana_programs.Flashloan.Fee.{payback_of, flashloan_payback-succeeds}
use fluid_solana_programs.Flashloan.Transaction.{
  Call, borrow, payback, set_fee, Opens, flashloan_borrow-Opens,
}
use fluid_solana_programs.Flashloan.Execute.{act, invoke, Runtime, execute_action, execute_actions}
use fluid_solana_programs.Flashloan.Invoked.{SameLoan, execute_actions-SameLoan}

-- The other programs keep the balance of the vault and the debt of the flashloan program.
abbrev World : Type 0
World = ℕ × ℕ

operate_world : OperateInstructionParams → World → Result World
operate_world params (vault, debt) =
    if leb (pos_part params.borrow_amount) vault && leb (neg_part params.borrow_amount) debt
    then ok (
      vault - pos_part params.borrow_amount,
      debt + pos_part params.borrow_amount - neg_part params.borrow_amount,
    )
    else err external

abbrev calls : Calls World
calls = record {
  pre_operate_with_signer = λ mint w. ok w;
  transfer_spl_tokens = λ amount w. ok (w.0 + amount, w.1);
  operate_with_signer = operate_world;
}

abbrev context : Context
context = record {
  program_id = 7;
  accounts = 1 ∷ 2 ∷ [];
  signer = 1;
  liquidity = 2;
  mint = 3;
  stack_height = 1;
  now = pos 1700000000;
}

abbrev closed_admin : FlashloanAdmin
closed_admin = record {
  authority = 5;
  liquidity_program = 6;
  status = true;
  flashloan_fee = 10;
  flashloan_timestamp = 0;
  is_flashloan_active = false;
  active_flashloan_amount = 0;
  bump = 255;
}

abbrev open_admin : FlashloanAdmin
open_admin = record closed_admin {
  flashloan_timestamp = 1700000000;
  is_flashloan_active = true;
  active_flashloan_amount = 2000;
}

-- 2000 is 208 + 7 * 256.
abbrev amount_bytes : List ℕ
amount_bytes = 208 ∷ 7 ∷ 0 ∷ 0 ∷ 0 ∷ 0 ∷ 0 ∷ 0 ∷ []

abbrev borrow_2000 : Instruction
borrow_2000 = record { program_id = 7; accounts = 1 ∷ 2 ∷ []; bytes = 1 ∷ amount_bytes }

abbrev swap : Instruction
swap = record { program_id = 8; accounts = []; bytes = [] }

abbrev payback_2000 : Instruction
payback_2000 = record {
  program_id = 7;
  accounts = 1 ∷ 2 ∷ [];
  bytes = 213 ∷ 47 ∷ 153 ∷ 137 ∷ 84 ∷ 243 ∷ 94 ∷ 232 ∷ amount_bytes;
}

-- A payback by its discriminator, else a loan by its first byte.
decode : Instruction → Option Call
decode ix =
    if equal (take 8 ix.bytes) flashloan_payback_discriminator
    then some (payback (from_le_bytes (drop 8 ix.bytes)))
    else if equal (take 1 ix.bytes) (1 ∷ [])
    then some (borrow (from_le_bytes (drop 1 ix.bytes)))
    else none

-- The swap adds 5 tokens to the vault, and calls the flashloan program to set its fee.
abbrev runtime : Runtime World
runtime = record {
  decode = decode;
  actions = λ ix. act 0 ∷ invoke 0 [] (set_fee 20) ∷ [];
  execute_other = λ ix n w. ok (w.0 + 5, w.1);
}

abbrev later : List Instruction
later = swap ∷ payback_2000 ∷ []

payback_found : validate_payback_instruction_exists 7 (1 ∷ 2 ∷ []) 2000 later ≡ ok tt
unfolding validate_payback_instruction_exists find_payback visit
payback_found = refl

borrow_runs :
    flashloan_borrow calls context borrow_2000 later 2000 closed_admin (9000, 0)
    ≡ ok (open_admin, (7000, 2000))
unfolding flashloan_borrow validate_flashloan validate_payback_instruction_exists find_payback visit
    set_flashloan_as_active lend cast_to_signed operate_world
borrow_runs = refl

flashloan_borrow-Opens_example : Opens context later 2000 closed_admin open_admin
flashloan_borrow-Opens_example =
    flashloan_borrow-Opens calls context borrow_2000 later 2000 closed_admin (9000, 0) borrow_runs

abbrev after : FlashloanAdmin
after = record closed_admin { flashloan_timestamp = 1700000000; flashloan_fee = 20 }

swap_runs :
    execute_actions calls runtime context swap later
      (runtime.actions swap)
      (open_admin, (7000, 2000))
    ≡ ok (record open_admin { flashloan_fee = 20 }, (7005, 2000))
unfolding execute_actions execute_action
swap_runs = refl

execute_actions-SameLoan_example : SameLoan open_admin (record open_admin { flashloan_fee = 20 })
execute_actions-SameLoan_example =
    execute_actions-SameLoan calls runtime context swap later (runtime.actions swap)
      (open_admin, (7000, 2000)) swap_runs

operate_runs : operate_world (payback_of context 2000) (9002, 2000) ≡ ok (9002, 0)
unfolding operate_world
operate_runs = refl

flashloan_payback-succeeds_example :
    flashloan_payback calls context 2000 open_admin (7000, 2000)
    ≡ ok (record open_admin { is_flashloan_active = false; active_flashloan_amount = 0 }, (9002, 0))
flashloan_payback-succeeds_example =
    flashloan_payback-succeeds calls context 2000 2 open_admin (7000, 2000) (7000, 2000)
      (9002, 2000) (9002, 0) (refl, refl) refl (omega arith) (omega arith) (omega arith)
      (omega arith) (omega arith) (omega arith) refl refl operate_runs
