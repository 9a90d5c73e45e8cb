-- ===== src/Liquidity/User/Payout.antt =====
-- What `pay_out` and `claim_tokens` do to the vault and to the claims
-- (`programs/liquidity/src/module/user.rs`, `programs/liquidity/src/utils/token.rs`).
use fluid_solana_programs.Base.{ℕ, ◌+◌, ◌≤◌, ◌<◌, ◌≡◌, arith, ◌⊎◌, inl, inr, Option}
use fluid_solana_programs.Base.Int.{ℤ, pos, negsuc, pos_part, neg_part}
use fluid_solana_programs.Base.Errors.{
  Error, liquidity, withdraw_to_account_required, borrow_to_account_required,
}
use fluid_solana_programs.Base.Result.{Result, ok, ◌>>=◌, Ensures, >>=-eq-ok}
use fluid_solana_programs.Math.Casting.{cast_to_unsigned}
use fluid_solana_programs.Math.SafeMath
use fluid_solana_programs.Math.Signed
use fluid_solana_programs.Liquidity.Constants.{Pubkey}
use fluid_solana_programs.Liquidity.TokenReserve.{add_claim_amount, reduce_claim_amount}
use fluid_solana_programs.Liquidity.Claim.{
  Accounts, TransferType, skip, direct, claim, approve, approve_claim, transfer_spl_tokens,
  hand_over, handle_transfer_or_claim, pay,
}
use fluid_solana_programs.Liquidity.User.{
  pay_withdrawal, pay_borrowing, pay_withdrawn, pay_borrowed, pay_out, claim_tokens,
}

-- What users can claim is in the vault.
abbrev pub IsCovered : Accounts → Type 0
IsCovered a = a.token_reserve.total_claim_amount ≤ a.vault_balance

-- `b` is `a` but for the vault and the claims.
abbrev pub Same : Accounts → Accounts → Type 0
Same a b =
    (b.user_supply_position ≡ a.user_supply_position)
    × (b.user_borrow_position ≡ a.user_borrow_position)
    × (b.token_reserve
        ≡ record a.token_reserve { total_claim_amount = b.token_reserve.total_claim_amount })

-- `amount` went out: it left the vault, or it was added to the claims. The claims are covered then,
-- or nothing moved.
abbrev pub Paid : ℕ → Accounts → Accounts → Type 0
Paid amount a b =
    (a.vault_balance + b.token_reserve.total_claim_amount
      ≡ b.vault_balance + a.token_reserve.total_claim_amount + amount)
    × (IsCovered b
        ⊎ ((b.vault_balance ≡ a.vault_balance)
            × (b.token_reserve.total_claim_amount ≡ a.token_reserve.total_claim_amount)))
    × Same a b

none-Paid : {n : ℕ} {a b : Accounts} → n ≡ 0 → b ≡ a → Paid n a b
none-Paid {n} {a} {b} e same = rw (e, same) (ground arith)

Paid-trans : (m n : ℕ) (a b c : Accounts) → Paid m a b → Paid n b c → Paid (m + n) a c
Paid-trans m n a b c p q = ground arith

module _ (transfer : ℕ → ℕ → Result ℕ)
    (takes : (balance amount : ℕ)
      → Ensures (λ left. left + amount ≡ balance) (transfer balance amount)) where
  pub pay-Paid :
      (kind : TransferType) (receiver : Pubkey) (to_account : Option Pubkey) (missing : Error)
      (claim_account : Option Pubkey) (amount : ℕ) (a : Accounts) {b : Accounts}
      → pay transfer kind receiver to_account missing claim_account amount a ≡ ok b
      → Paid amount a b
  unfolding pay handle_transfer_or_claim hand_over transfer_spl_tokens approve_claim approve
      add_claim_amount SafeMath.safe_add
  pay-Paid skip receiver to_account missing claim_account amount a h = ground arith
  pay-Paid direct receiver to_account missing claim_account amount a h =
      ground (arith, takes a.vault_balance amount)
  pay-Paid claim receiver to_account missing claim_account amount a h = ground arith

  pay_withdrawal-Paid :
      (kind : TransferType) (amount : ℕ) (receiver : Pubkey) (a : Accounts) {b : Accounts}
      → pay_withdrawal transfer kind amount receiver a ≡ ok b
      → Paid amount a b
  unfolding pay_withdrawal
  pay_withdrawal-Paid kind amount receiver a h =
      pay-Paid kind receiver a.withdraw_to_account (liquidity withdraw_to_account_required)
        a.withdraw_claim_account amount a h

  pay_withdrawn-cases :
      (kind : TransferType) (amount : ℕ) (receiver : Pubkey) (a : Accounts) {b : Accounts}
      → pay_withdrawn transfer kind amount receiver a ≡ ok b
      → ((amount ≡ 0) × (b ≡ a)) ⊎ (pay_withdrawal transfer kind amount receiver a ≡ ok b)
  unfolding pay_withdrawn
  pay_withdrawn-cases kind amount receiver a h = ground arith

  pay_withdrawn-Paid :
      (kind : TransferType) (amount : ℕ) (receiver : Pubkey) (a : Accounts) {b : Accounts}
      → pay_withdrawn transfer kind amount receiver a ≡ ok b
      → Paid amount a b
  pay_withdrawn-Paid kind amount receiver a h =
      elim (pay_withdrawn-cases kind amount receiver a h) [
        | inl (nothing, same) ↦ none-Paid nothing same
        | inr paid ↦ pay_withdrawal-Paid kind amount receiver a paid
      ]

  pay_borrowing-Paid :
      (kind : TransferType) (amount : ℕ) (receiver : Pubkey) (a : Accounts) {b : Accounts}
      → pay_borrowing transfer kind amount receiver a ≡ ok b
      → Paid amount a b
  unfolding pay_borrowing
  pay_borrowing-Paid kind amount receiver a h =
      pay-Paid kind receiver a.borrow_to_account (liquidity borrow_to_account_required)
        a.borrow_claim_account amount a h

  pay_borrowed-cases :
      (kind : TransferType) (amount : ℕ) (receiver : Pubkey) (a : Accounts) {b : Accounts}
      → pay_borrowed transfer kind amount receiver a ≡ ok b
      → ((amount ≡ 0) × (b ≡ a)) ⊎ (pay_borrowing transfer kind amount receiver a ≡ ok b)
  unfolding pay_borrowed
  pay_borrowed-cases kind amount receiver a h = ground arith

  pay_borrowed-Paid :
      (kind : TransferType) (amount : ℕ) (receiver : Pubkey) (a : Accounts) {b : Accounts}
      → pay_borrowed transfer kind amount receiver a ≡ ok b
      → Paid amount a b
  pay_borrowed-Paid kind amount receiver a h = elim (pay_borrowed-cases kind amount receiver a h) [
    | inl (nothing, same) ↦ none-Paid nothing same
    | inr paid ↦ pay_borrowing-Paid kind amount receiver a paid
  ]

  -- The ways in which `pay_out` ends, with what is withdrawn and borrowed.
  abbrev Outcome : TransferType → Pubkey → Pubkey → ℕ → ℕ → Accounts → Accounts → Type 0
  Outcome kind withdraw_to borrow_to withdrawn borrowed a c =
      ((withdrawn + borrowed ≡ 0) × (c ≡ a))
      ⊎ (pay_withdrawal transfer kind (withdrawn + borrowed) withdraw_to a ≡ ok c)
      ⊎ ((pay_withdrawn transfer kind withdrawn withdraw_to a
            >>= pay_borrowed transfer kind borrowed borrow_to)
          ≡ ok c)

  pay_out-cases :
      (kind : TransferType) (s b : ℤ) (withdraw_to borrow_to : Pubkey) (a : Accounts) {c : Accounts}
      → pay_out transfer kind s b withdraw_to borrow_to a ≡ ok c
      → Outcome kind withdraw_to borrow_to (neg_part s) (pos_part b) a c
  unfolding pay_out cast_to_unsigned Signed.neg SafeMath.safe_add
  pay_out-cases kind (pos s) (pos b) withdraw_to borrow_to a h = ground arith
  pay_out-cases kind (negsuc s) (pos b) withdraw_to borrow_to a h = ground arith
  pay_out-cases kind (pos s) (negsuc b) withdraw_to borrow_to a h = ground arith
  pay_out-cases kind (negsuc s) (negsuc b) withdraw_to borrow_to a h = ground arith

  pub pay_out-Paid :
      (kind : TransferType) (s b : ℤ) (withdraw_to borrow_to : Pubkey) (a : Accounts) {c : Accounts}
      → pay_out transfer kind s b withdraw_to borrow_to a ≡ ok c
      → Paid (neg_part s + pos_part b) a c
  pay_out-Paid kind s b withdraw_to borrow_to a {c} h =
      elim (pay_out-cases kind s b withdraw_to borrow_to a h) [
        | inl (nothing, same) ↦ none-Paid nothing same
        | inr (inl together) ↦
            pay_withdrawal-Paid kind (neg_part s + pos_part b) withdraw_to a together
        | inr (inr apart) ↦
            let (first, withdrawn, borrowed) =
              >>=-eq-ok (pay_withdrawn transfer kind (neg_part s) withdraw_to a) _ apart in
            Paid-trans (neg_part s) (pos_part b) a first c
              (pay_withdrawn-Paid kind (neg_part s) withdraw_to a withdrawn)
              (pay_borrowed-Paid kind (pos_part b) borrow_to first borrowed)
      ]

  -- Where a transfer takes exactly its amount off its source: A claim pays out all that the
  -- claim account holds, takes it off the total and leaves nothing.
  pub claim-pays :
      (key : Pubkey) (a : Accounts) {b : Accounts}
      → claim_tokens transfer key a ≡ ok b
      → (0 < (a.claims key).amount)
        × (b.vault_balance + (a.claims key).amount ≡ a.vault_balance)
        × (b.token_reserve.total_claim_amount + (a.claims key).amount
            ≡ a.token_reserve.total_claim_amount)
        × ((b.claims key).amount ≡ 0)
  unfolding claim_tokens transfer_spl_tokens reduce_claim_amount SafeMath.safe_sub
  claim-pays key a h = ground (arith, takes a.vault_balance (a.claims key).amount)
