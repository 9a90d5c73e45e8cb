-- ===== src/Flashloan/Invoked.antt =====
-- Calls of the flashloan program from other programs (`programs/flashloan/src/validate.rs`).
use fluid_solana_programs.Base.{ℕ, suc, ◌≡◌, arith, ltb, ◌==◌, not, refl, sym, ◌∙◌, List, [], ◌∷◌}
use fluid_solana_programs.Base.Result.{ok, ◌>>=◌, >>=-eq-ok, passed, ok-pair}
use fluid_solana_programs.Liquidity.Constants.{Pubkey}
use fluid_solana_programs.Flashloan.{
  FlashloanAdmin, min_flashloan_amount, flashloan_stack_height, set_flashloan_fee, pause_protocol,
  activate_protocol, update_authority,
}
use fluid_solana_programs.Flashloan.Validate.{
  Instruction, validate_flashloan, validate_flashloan_payback,
}
use fluid_solana_programs.Flashloan.Instructions.{
  Calls, Context, flashloan_borrow, flashloan_payback,
}
use fluid_solana_programs.Flashloan.Transaction.{
  Call, borrow, payback, set_fee, pause, activate, set_authority, execute_admin,
}
use fluid_solana_programs.Flashloan.Execute.{
  Action, act, invoke, Runtime, invoked, execute_call, execute_action, execute_actions,
}

-- The loan of the account, open or not, and its amount are as before.
abbrev pub SameLoan : FlashloanAdmin → FlashloanAdmin → Type 0
SameLoan a b =
    (b.is_flashloan_active ≡ a.is_flashloan_active)
    × (b.active_flashloan_amount ≡ a.active_flashloan_amount)

pub execute_admin-SameLoan :
    (call : Call) (a : FlashloanAdmin) {b : FlashloanAdmin}
    → execute_admin call a ≡ ok b
    → SameLoan a b
unfolding execute_admin set_flashloan_fee pause_protocol activate_protocol update_authority
execute_admin-SameLoan (borrow amount) a run = cc
execute_admin-SameLoan (payback amount) a run = cc
execute_admin-SameLoan (set_fee fee) a run = ground arith
execute_admin-SameLoan pause a run = ground arith
execute_admin-SameLoan activate a run = ground arith
execute_admin-SameLoan (set_authority governance signer new_authority) a run = ground arith

loan_refused :
    (program_id : Pubkey) (accounts : List Pubkey) (depth : ℕ) (ix : Instruction) (amount : ℕ)
    (later : List Instruction)
    → ¬ (validate_flashloan program_id accounts (suc (suc depth)) ix amount later ≡ ok tt)
unfolding validate_flashloan
loan_refused program_id accounts depth ix amount later run =
    let (_, run₁) = passed (ltb amount min_flashloan_amount) _ run in
    let (_, run₂) = passed (not (ix.program_id == program_id)) _ run₁ in
    let (low, _) = passed (ltb flashloan_stack_height (suc (suc depth))) _ run₂ in
    ground (arith, low)

payback_refused :
    (depth active amount : ℕ)
    → ¬ (validate_flashloan_payback (suc (suc depth)) active amount ≡ ok tt)
unfolding validate_flashloan_payback
payback_refused depth active amount run = ground (arith, run)

pub admin-same :
    {W : Type 0} (call : Call) (s : FlashloanAdmin × W) {t : FlashloanAdmin × W}
    → ◌>>=◌ {T = FlashloanAdmin × W} (execute_admin call s.0) (λ b. ok (b, s.1)) ≡ ok t
    → SameLoan s.0 t.0 × (t.1 ≡ s.1)
admin-same call s {t} run =
    let (b, run_admin, last) = >>=-eq-ok (execute_admin call s.0) _ run in
    let kept = execute_admin-SameLoan call s.0 run_admin in
    let (same_b, same_w) = ok-pair last in (rw (← same_b) kept, sym same_w)

module _ {W : Type 0} (calls : Calls W) (c : Context) where
  pub invoked-same :
      (depth : ℕ) (accounts : List Pubkey) (ix : Instruction) (later : List Instruction)
      (call : Call) (s : FlashloanAdmin × W) {t : FlashloanAdmin × W}
      → execute_call calls (invoked depth accounts c) ix later call s ≡ ok t
      → SameLoan s.0 t.0 × (t.1 ≡ s.1)
  unfolding execute_call flashloan_borrow flashloan_payback
  invoked-same depth accounts ix later (borrow amount) s run =
      let (_, valid, _) =
        >>=-eq-ok (validate_flashloan c.program_id accounts (suc (suc depth)) ix amount later) _
          run in
      absurd (loan_refused c.program_id accounts depth ix amount later valid)
  invoked-same depth accounts ix later (payback amount) s run =
      let (_, valid, _) =
        >>=-eq-ok (validate_flashloan_payback (suc (suc depth)) s.0.active_flashloan_amount amount)
          _ run in
      absurd (payback_refused depth s.0.active_flashloan_amount amount valid)
  invoked-same depth accounts ix later (set_fee fee) s run = admin-same (set_fee fee) s run
  invoked-same depth accounts ix later pause s run = admin-same pause s run
  invoked-same depth accounts ix later activate s run = admin-same activate s run
  invoked-same depth accounts ix later (set_authority governance signer new_authority) s run =
      admin-same (set_authority governance signer new_authority) s run

module _ {W : Type 0} (calls : Calls W) (runtime : Runtime W) (c : Context) where
  action-SameLoan :
      (ix : Instruction) (later : List Instruction) (action : Action) (s : FlashloanAdmin × W)
      {t : FlashloanAdmin × W}
      → execute_action calls runtime c ix later action s ≡ ok t
      → SameLoan s.0 t.0
  unfolding execute_action
  action-SameLoan ix later (act n) s {t} run =
      let (v, _, last) = >>=-eq-ok (runtime.execute_other ix n s.1) _ run in
      rw (← (ok-pair last).0) (refl, refl)
  action-SameLoan ix later (invoke depth accounts call) s run =
      (invoked-same calls c depth accounts ix later call s run).0

  -- Whatever another program does and calls in one of its instructions: if it succeeds, no loan of the
  -- flashloan program is opened or closed by it, and none changes its amount.
  pub execute_actions-SameLoan :
      (ix : Instruction) (later : List Instruction) (l : List Action) (s : FlashloanAdmin × W)
      {t : FlashloanAdmin × W}
      → execute_actions calls runtime c ix later l s ≡ ok t
      → SameLoan s.0 t.0
  unfolding execute_actions
  execute_actions-SameLoan ix later [] s {t} run = let same : s ≡ t = cc in rw (← same) (refl, refl)
  execute_actions-SameLoan ix later (action ∷ rest) s {t} run =
      let (u, step, last) = >>=-eq-ok (execute_action calls runtime c ix later action s) _ run in
      let (flag, amount) = action-SameLoan ix later action s step in
      let (flag', amount') = execute_actions-SameLoan ix later rest u last in
      (flag' ∙ flag, amount' ∙ amount)
