-- ===== src/Liquidity/Claim.antt =====
-- `UserClaim` of `programs/liquidity/src/state/state.rs`, `TransferType` of `state/structs.rs`, the
-- accounts that the instructions of `module/user.rs` get, and `programs/liquidity/src/utils/token.rs`.
--
-- The token program is not part of the repository: `transfer balance amount` is what is left of the
-- balance of the source account, or the failure of the call.
use fluid_solana_programs.Base.{ℕ, ◌-◌, ltb, ◌==◌, if◌then◌else◌, not, Option, none, some}
use fluid_solana_programs.Base.Errors.{
  Error, liquidity, invalid_claim_amount, insufficient_balance, claim_account_required,
  invalid_user_claim, invalid_transfer_type,
}
use fluid_solana_programs.Base.Result.{Result, ok, err, ◌>>=◌, ◌>>◌, fail_if}
use fluid_solana_programs.Math.Words.{u64_max}
use fluid_solana_programs.Math.SafeMath.{safe_add}
use fluid_solana_programs.Liquidity.Constants.{Pubkey}
use fluid_solana_programs.Liquidity.RateModel.{RateModel}
use fluid_solana_programs.Liquidity.SupplyPosition.{UserSupplyPosition}
use fluid_solana_programs.Liquidity.BorrowPosition.{UserBorrowPosition}
use fluid_solana_programs.Liquidity.TokenReserve.{TokenReserve, add_claim_amount}

pub record UserClaim : Type 0 where
  pub user : Pubkey
  pub amount : ℕ
  pub mint : Pubkey

abbrev pub init : Pubkey → Pubkey → UserClaim → UserClaim
init user mint c = record c { user = user; mint = mint }

abbrev pub reset_balance : UserClaim → UserClaim
reset_balance c = record c { amount = 0 }

unfoldable pub approve : ℕ → UserClaim → Result UserClaim
approve amount c = do total ← safe_add u64_max c.amount amount; ok (record c { amount = total })

pub data TransferType : Type 0 where
  skip direct claim : TransferType

-- The accounts of an instruction. A claim account is given by its address, since the two claim
-- accounts of `operate` can be the same one; `claims` is the data at each address.
pub record Accounts : Type 0 where
  pub protocol : Pubkey
  pub mint : Pubkey
  pub token_reserve : TokenReserve
  pub rate_model : RateModel
  pub user_supply_position : Option UserSupplyPosition
  pub user_borrow_position : Option UserBorrowPosition
  pub withdraw_to_account : Option Pubkey
  pub borrow_to_account : Option Pubkey
  pub withdraw_claim_account : Option Pubkey
  pub borrow_claim_account : Option Pubkey
  pub claims : Pubkey → UserClaim
  pub vault_balance : ℕ

abbrev pub store_claim : Pubkey → UserClaim → (Pubkey → UserClaim) → Pubkey → UserClaim
store_claim key c claims k = if k == key then c else claims k

-- `account.as_ref().ok_or(error)?`
abbrev pub ok_or {ℓ} : {A : Type ℓ} → Error → Option A → Result A
ok_or e none = err e
ok_or e (some a) = ok a

-- The amount is approved for the user of the claim account.
unfoldable pub approve_claim : Pubkey → Option Pubkey → ℕ → Accounts → Result Accounts
approve_claim claimer claim_account amount a = do
  key ← ok_or (liquidity claim_account_required) claim_account
  fail_if (not ((a.claims key).user == claimer)) (liquidity invalid_user_claim)
  approved ← approve amount (a.claims key)
  ok (record a { claims = store_claim key approved a.claims })

module _ (transfer : ℕ → ℕ → Result ℕ) where
  -- `transfer_spl_tokens` out of the vault.
  unfoldable pub transfer_spl_tokens : ℕ → Accounts → Result Accounts
  transfer_spl_tokens amount a = do
    balance ← transfer a.vault_balance amount
    ok (record a { vault_balance = balance })

  -- The `match` of `handle_transfer_or_claim`: what was added for a claim, and the accounts.
  unfoldable pub hand_over :
      TransferType → Pubkey → Option Pubkey → ℕ → Accounts → Result (ℕ × Accounts)
  hand_over skip claimer claim_account amount a = err (liquidity invalid_transfer_type)
  hand_over direct claimer claim_account amount a = do
    sent ← transfer_spl_tokens amount a
    ok (0, sent)
  hand_over claim claimer claim_account amount a = do
    approved ← approve_claim claimer claim_account amount a
    ok (amount, approved)

  unfoldable pub handle_transfer_or_claim :
      TransferType → Pubkey → Option Pubkey → ℕ → ℕ → Accounts → Result (ℕ × Accounts)
  handle_transfer_or_claim kind claimer claim_account last_stored_claim_amount amount a = do
    fail_if (ltb a.vault_balance last_stored_claim_amount) (liquidity invalid_claim_amount)
    fail_if (ltb (a.vault_balance - last_stored_claim_amount) amount)
        (liquidity insufficient_balance)
    hand_over kind claimer claim_account amount a

  -- One payment of `operate`: the receiving account is required, and what was added for a claim is
  -- added to the reserve's total.
  unfoldable pub pay :
      TransferType → Pubkey → Option Pubkey → Error → Option Pubkey → ℕ → Accounts → Result Accounts
  pay kind receiver to_account missing claim_account amount a = do
    _ ← ok_or missing to_account
    (claim_amount, paid) ←
        handle_transfer_or_claim kind receiver claim_account a.token_reserve.total_claim_amount
          amount a
    if ltb 0 claim_amount
        then (do
          reserve ← add_claim_amount claim_amount paid.token_reserve
          ok (record paid { token_reserve = reserve }))
        else ok paid
