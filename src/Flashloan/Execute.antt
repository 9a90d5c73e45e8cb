-- ===== src/Flashloan/Execute.antt =====
-- A transaction of `programs/flashloan`: the runtime executes its instructions in order, and undoes them
-- all where one fails. How an instruction is decoded, and what other programs do, are parameters; a
-- program that an instruction is for may call the flashloan program, which then finds a stack height
-- above 1. Only its own program writes to the account of the flashloan program.
use fluid_solana_programs.Base.{ℕ, suc, ◌==◌, if◌then◌else◌, Option, some, none, List, [], ◌∷◌}
use fluid_solana_programs.Base.Errors.{external}
use fluid_solana_programs.Base.Result.{Result, ok, err, ◌>>=◌}
use fluid_solana_programs.Liquidity.Constants.{Pubkey}
use fluid_solana_programs.Flashloan.{FlashloanAdmin}
use fluid_solana_programs.Flashloan.Validate.{Instruction}
use fluid_solana_programs.Flashloan.Instructions.{
  Calls, Context, flashloan_borrow, flashloan_payback,
}
use fluid_solana_programs.Flashloan.Transaction.{Call, borrow, payback, execute_admin}

-- What another program does: something on the state of other programs, by its number, or a call of the
-- flashloan program with accounts of its choice, `depth` programs below its own.
pub data Action : Type 0 where
  act : ℕ → Action
  invoke : (depth : ℕ) → List Pubkey → Call → Action

-- What the runtime and the other programs give: the call that the bytes of an instruction of the
-- flashloan program stand for, and what an instruction of another program does.
pub record Runtime (W : Type 0) : Type 0 where
  pub decode : Instruction → Option Call
  pub actions : Instruction → List Action
  pub execute_other : Instruction → ℕ → W → Result W

-- The context of a call from another program, whose own stack height is at least 1.
abbrev pub invoked : ℕ → List Pubkey → Context → Context
invoked depth accounts c = record c { stack_height = suc (suc depth); accounts = accounts }

unfoldable pub execute_call :
    {W : Type 0}
    → Calls W
    → Context
    → Instruction
    → List Instruction
    → Call
    → FlashloanAdmin × W
    → Result (FlashloanAdmin × W)
unfolding execute_admin
execute_call calls c ix later (borrow amount) (a, w) = flashloan_borrow calls c ix later amount a w
execute_call calls c ix later (payback amount) (a, w) = flashloan_payback calls c amount a w
execute_call calls c ix later call (a, w) = do b ← execute_admin call a; ok (b, w)

module _ {W : Type 0} (calls : Calls W) (runtime : Runtime W) (c : Context) where
  unfoldable pub execute_action :
      Instruction → List Instruction → Action → FlashloanAdmin × W → Result (FlashloanAdmin × W)
  unfolding execute_call
  execute_action ix later (act n) (a, w) = do v ← runtime.execute_other ix n w; ok (a, v)
  execute_action ix later (invoke depth accounts call) s =
      execute_call calls (invoked depth accounts c) ix later call s

  unfoldable pub execute_actions :
      Instruction
      → List Instruction
      → List Action
      → FlashloanAdmin × W
      → Result (FlashloanAdmin × W)
  execute_actions ix later [] s = ok s
  execute_actions ix later (action ∷ rest) s = do
    t ← execute_action ix later action s
    execute_actions ix later rest t

  abbrev pub execute_decoded :
      Instruction
      → List Instruction
      → Option Call
      → FlashloanAdmin × W
      → Result (FlashloanAdmin × W)
  execute_decoded ix later none s = err external
  execute_decoded ix later (some call) s = execute_call calls c ix later call s

  unfoldable pub execute_instruction :
      Instruction → List Instruction → FlashloanAdmin × W → Result (FlashloanAdmin × W)
  unfolding execute_call execute_actions
  execute_instruction ix later s =
      if ix.program_id == c.program_id
      then execute_decoded ix later (runtime.decode ix) s
      else execute_actions ix later (runtime.actions ix) s

  unfoldable pub execute_transaction :
      List Instruction → FlashloanAdmin × W → Result (FlashloanAdmin × W)
  execute_transaction [] s = ok s
  execute_transaction (ix ∷ later) s = do
    t ← execute_instruction ix later s
    execute_transaction later t
