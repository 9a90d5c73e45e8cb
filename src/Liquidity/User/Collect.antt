-- ===== src/Liquidity/User/Collect.antt =====
-- What `collect_revenue` leaves (`programs/liquidity/src/module/admin.rs`).
mod Tests
use fluid_solana_programs.Base.{
  ℕ, ◌+◌, ◌*◌, ◌^◌, ◌≤◌, ◌<◌, ◌≡◌, ◌≢◌, arith, ltb, if◌then◌else◌, ◌⊎◌, inl, inr,
}
use native.Mathlib.Decide.{dec_le}
use fluid_solana_programs.Base.Int.{ℤ}
use fluid_solana_programs.Base.Result.{Result, ok, err, ◌>>=◌, Ensures, >>=-eq-ok}
use fluid_solana_programs.Math.Casting.{cast}
use fluid_solana_programs.Liquidity.TokenReserve.Prices.{calculate_exchange_prices}
use fluid_solana_programs.Liquidity.TokenReserve.Revenue.{
  calc_revenue, supplied, borrowed, calc_revenue_solvent,
}
use fluid_solana_programs.Liquidity.Claim.{Accounts, transfer_spl_tokens}
use fluid_solana_programs.Liquidity.User.{collect_amount, collect_revenue}
use fluid_solana_programs.Liquidity.User.Payout.{IsCovered}

module _ (transfer : ℕ → ℕ → Result ℕ)
    (takes : (balance amount : ℕ)
      → Ensures (λ left. left + amount ≡ balance) (transfer balance amount)) where
  collected :
      (revenue : ℕ) (a : Accounts) {b : Accounts}
      → collect_amount transfer a revenue ≡ ok b
      → (b.vault_balance + revenue ≡ a.vault_balance) × (b.token_reserve ≡ a.token_reserve)
  unfolding collect_amount transfer_spl_tokens cast
  collected revenue a h = ground (arith, takes a.vault_balance revenue)

  -- Where a transfer takes exactly its amount off its source: Where the vault covers what
  -- suppliers and claims are owed, valued at the prices of the time with what the borrowers owe,
  -- it does so after the revenue is collected; and where the suppliers are owed at least what
  -- the borrowers owe, the claims alone stay covered too.
  pub collect_revenue_solvent :
      (now : ℤ) (a b : Accounts) (s p : ℕ)
      → calculate_exchange_prices now a.token_reserve ≡ ok (s, p)
      → a.token_reserve.total_claim_amount * 10 ^ 12 + supplied a.token_reserve s
        ≤ a.vault_balance * 10 ^ 12 + borrowed a.token_reserve p
      → collect_revenue transfer now a ≡ ok b
      → (b.token_reserve.total_claim_amount * 10 ^ 12 + supplied b.token_reserve s
          ≤ b.vault_balance * 10 ^ 12 + borrowed b.token_reserve p)
        × (IsCovered b ⊎ (supplied a.token_reserve s < borrowed a.token_reserve p))
  unfolding collect_revenue
  collect_revenue_solvent now a b s p priced before h =
      let (revenue, found, sent) =
        >>=-eq-ok (calc_revenue now a.vault_balance a.token_reserve) (collect_amount transfer a)
          h in
      let (left, same) = collected revenue a sent in
      let some_or_none : (revenue ≡ 0) ⊎ (revenue ≢ 0) = omega arith in
      let owed : (revenue + a.token_reserve.total_claim_amount) * 10 ^ 12
            + supplied a.token_reserve s
          ≤ a.vault_balance * 10 ^ 12 + borrowed a.token_reserve p =
        elim some_or_none [
          | inl none_found ↦ rw none_found (omega arith)
          | inr some_found ↦
              calc_revenue_solvent now a.vault_balance a.token_reserve priced found some_found
        ] in
      rw same (
        omega arith,
        elim (dec_le (borrowed a.token_reserve p) (supplied a.token_reserve s)) [
          | yes enough ↦ inl (omega arith)
          | no short ↦ inr (omega arith)
        ],
      )
