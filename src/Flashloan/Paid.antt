-- ===== src/Flashloan/Paid.antt =====
-- A transaction with loans of `programs/flashloan` that succeeds has paid back every loan that it took.
use fluid_solana_programs.Base.{ℕ, ◌+◌, ◌≤◌, ◌≡◌, true, some, List, ◌⊎◌}
use fluid_solana_programs.Base.Int.{pos_part, neg_part}
use fluid_solana_programs.Base.Result.{ok}
use fluid_solana_programs.Liquidity.Constants.{Pubkey}
use fluid_solana_programs.Flashloan.{FlashloanAdmin}
use fluid_solana_programs.Flashloan.Validate.{Instruction, pays_back}
use fluid_solana_programs.Flashloan.Instructions.{OperateInstructionParams, Calls, Context}
use fluid_solana_programs.Flashloan.Payback.{own, IsOnlyPayback}
use fluid_solana_programs.Flashloan.Transaction.{payback, IsClosed}
use fluid_solana_programs.Flashloan.Execute.{Runtime}

module _ {W : Type 0} (calls : Calls W) (runtime : Runtime W) (vault debt : W → ℕ)
    (operates : (params : OperateInstructionParams) (w v : W)
      → calls.operate_with_signer params w ≡ ok v
      → (vault v + pos_part params.borrow_amount ≡ vault w)
        × (debt v + neg_part params.borrow_amount ≡ debt w + pos_part params.borrow_amount))
    (transfers : (amount : ℕ) (w v : W)
      → calls.transfer_spl_tokens amount w ≡ ok v
      → (vault v ≡ vault w + amount) × (debt v ≡ debt w))
    (prepares : (mint : Pubkey) (w v : W)
      → calls.pre_operate_with_signer mint w ≡ ok v
      → (vault v ≡ vault w) × (debt v ≡ debt w))
    (others : (ix : Instruction) (n : ℕ) (w v : W)
      → runtime.execute_other ix n w ≡ ok v
      → (vault w ≤ vault v) × (debt v ≡ debt w))
    (decodes : (ix : Instruction) (amount : ℕ)
      → pays_back amount ix.bytes ≡ true
      → runtime.decode ix ≡ some (payback amount))
    (c : Context) where
  -- Nothing is owed next to the balance and the debt at the start of a transaction.
  abbrev pub IsSettled : W → FlashloanAdmin × W → Type 0
  IsSettled w t = IsClosed t.0 × (vault w ≤ vault t.1) × (debt t.1 ≡ debt w)

  -- No loan is open, or one is, its amount is owed, and its payback is the only instruction for the
  -- program that follows.
  abbrev Status : W → List Instruction → FlashloanAdmin × W → Type 0
  Status w later t =
      IsSettled w t
      ⊎ ((t.0.is_flashloan_active ≡ true)
          × (vault w ≤ vault t.1 + t.0.active_flashloan_amount)
          × (debt t.1 ≡ debt w + t.0.active_flashloan_amount)
          × ((amount : ℕ) × IsOnlyPayback c.accounts amount (own c.program_id later)))
