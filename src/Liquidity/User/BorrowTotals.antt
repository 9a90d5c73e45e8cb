-- ===== src/Liquidity/User/BorrowTotals.antt =====
-- How `operate` keeps a position of the borrow side and the totals of the token in step
-- (`programs/liquidity/src/module/user.rs`, `programs/liquidity/src/state/token_reserve.rs`).
use fluid_solana_programs.Base.{
  ℕ, zero, suc, ◌+◌, ◌-◌, ◌≤◌, ◌≡◌, ◌≢◌, arith, ◌==◌, if◌then◌else◌, ◌⊎◌, inl, inr, some,
}
use fluid_solana_programs.Base.Int.{ℤ, pos, negsuc, pos_part, neg_part, nat_abs}
use fluid_solana_programs.Base.Result.{ok, ◌>>=◌, >>=-eq-ok}
use fluid_solana_programs.Math.Casting.{cast}
use fluid_solana_programs.Liquidity.BorrowPosition.{
  UserBorrowPosition, apply_amount, borrow_or_payback,
}
use fluid_solana_programs.Liquidity.BorrowPosition.Amounts.{
  apply_borrow, apply_payback, apply_borrow_free, apply_payback_free,
}
use fluid_solana_programs.Liquidity.BorrowPosition.Limits.{done}
use fluid_solana_programs.Liquidity.TokenReserve.{
  TokenReserve, set_new_total_borrow_with_interest, set_new_total_borrow_interest_free,
}
use fluid_solana_programs.Liquidity.TokenReserve.Totals.{moved_total-Ensures}
use fluid_solana_programs.Liquidity.Claim.{Accounts}
use fluid_solana_programs.Liquidity.User.{store_borrow, borrow_step}

-- The amount moved, in the mode of the position.
abbrev pub Moved : UserBorrowPosition → ℤ → ℤ → ℕ → ℕ → Type 0
Moved p raw free before after =
    ((p.with_interest ≡ 1) × (nat_abs free ≡ 0) × (after + neg_part raw ≡ before + pos_part raw))
    ⊎ ((p.with_interest ≢ 1)
        × (nat_abs free ≢ 0)
        × (after + neg_part free ≡ before + pos_part free))

apply_amount-Moved :
    (x : ℤ) (price : ℕ) (p : UserBorrowPosition) (before : ℕ) {raw free : ℤ} {after : ℕ}
    → nat_abs x ≢ 0
    → apply_amount x price p before ≡ ok (raw, free, after)
    → Moved p raw free before after
apply_amount-Moved (pos zero) price p before some_amount h = ground arith
apply_amount-Moved (pos (suc n)) price p before some_amount h =
    let mode : (p.with_interest ≡ 1) ⊎ (p.with_interest ≢ 1) = omega arith in
    elim mode [
      | inl m ↦ ground (arith, apply_borrow n price p before m h)
      | inr m ↦ ground (arith, apply_borrow_free n price p before m h)
    ]
apply_amount-Moved (negsuc n) price p before some_amount h =
    let mode : (p.with_interest ≡ 1) ⊎ (p.with_interest ≢ 1) = omega arith in
    elim mode [
      | inl m ↦ ground (arith, apply_payback n price p before m h)
      | inr m ↦ ground (arith, apply_payback_free n price p before m h)
    ]

-- The total that counts positions of the mode, and the other one.
abbrev pub total_of : ℕ → TokenReserve → ℕ
total_of mode r = if mode == 1 then r.total_borrow_with_interest else r.total_borrow_interest_free

abbrev pub other_total_of : ℕ → TokenReserve → ℕ
other_total_of mode r =
    if mode == 1 then r.total_borrow_interest_free else r.total_borrow_with_interest

-- The total moved as the position did.
abbrev pub InStep : UserBorrowPosition → UserBorrowPosition → TokenReserve → TokenReserve → Type 0
InStep p q r s =
    (total_of p.with_interest s + p.amount ≡ total_of p.with_interest r + q.amount)
    × (other_total_of p.with_interest s ≡ other_total_of p.with_interest r)

borrow_step-cases :
    (now x : ℤ) (price : ℕ) (a : Accounts) (p : UserBorrowPosition) {b : Accounts}
    → a.user_borrow_position ≡ some p
    → borrow_step now x price a ≡ ok b
    → ((nat_abs x ≡ 0) × (b ≡ a))
      ⊎ ((nat_abs x ≢ 0) × ((borrow_or_payback now x price p >>= store_borrow a) ≡ ok b))
unfolding borrow_step
borrow_step-cases now x price a p e h = ground arith

store_borrow-cases :
    (a : Accounts) (raw free : ℤ) (q : UserBorrowPosition) {b : Accounts}
    → store_borrow a (raw, free, q) ≡ ok b
    → (b.user_borrow_position ≡ some q)
      × (((nat_abs free ≡ 0)
            × (set_new_total_borrow_with_interest raw a.token_reserve ≡ ok b.token_reserve))
          ⊎ ((nat_abs free ≢ 0)
              × (set_new_total_borrow_interest_free free a.token_reserve ≡ ok b.token_reserve)))
unfolding store_borrow
store_borrow-cases a raw free q h = ground arith

with_interest-eq-ok :
    (raw : ℤ) (r : TokenReserve) {s : TokenReserve}
    → set_new_total_borrow_with_interest raw r ≡ ok s
    → (s.total_borrow_with_interest ≡ r.total_borrow_with_interest + pos_part raw - neg_part raw)
      × (s.total_borrow_interest_free ≡ r.total_borrow_interest_free)
unfolding set_new_total_borrow_with_interest cast
with_interest-eq-ok raw r h = ground (arith, moved_total-Ensures r.total_borrow_with_interest raw)

interest_free-eq-ok :
    (free : ℤ) (r : TokenReserve) {s : TokenReserve}
    → set_new_total_borrow_interest_free free r ≡ ok s
    → (s.total_borrow_interest_free ≡ r.total_borrow_interest_free + pos_part free - neg_part free)
      × (s.total_borrow_with_interest ≡ r.total_borrow_with_interest)
unfolding set_new_total_borrow_interest_free cast
interest_free-eq-ok free r h = ground (arith, moved_total-Ensures r.total_borrow_interest_free free)

store_borrow-InStep :
    (a b : Accounts) (raw free : ℤ) (p q : UserBorrowPosition)
    → p.amount ≤ total_of p.with_interest a.token_reserve
    → Moved p raw free p.amount q.amount
    → store_borrow a (raw, free, q) ≡ ok b
    → InStep p q a.token_reserve b.token_reserve
store_borrow-InStep a b raw free p q counted moved h =
    elim ((store_borrow-cases a raw free q h).1) [
      | inl (no_free, s) ↦ ground (arith, with_interest-eq-ok raw a.token_reserve s)
      | inr (some_free, s) ↦ ground (arith, interest_free-eq-ok free a.token_reserve s)
    ]

-- Where the total counts the position, the step keeps both in step.
pub borrow_step-InStep :
    (now x : ℤ) (price : ℕ) (a b : Accounts) (p q : UserBorrowPosition)
    → a.user_borrow_position ≡ some p
    → b.user_borrow_position ≡ some q
    → p.amount ≤ total_of p.with_interest a.token_reserve
    → borrow_step now x price a ≡ ok b
    → InStep p q a.token_reserve b.token_reserve
borrow_step-InStep now x price a b p q e f counted h =
    elim (borrow_step-cases now x price a p e h) [
      | inl (nothing, same) ↦ ground arith
      | inr (some_amount, g) ↦
          let ((raw, free, q'), moved, stored) =
            >>=-eq-ok (borrow_or_payback now x price p) (store_borrow a) g in
          let m = apply_amount-Moved x price p p.amount some_amount (done now x price p moved).2 in
          let t = store_borrow-InStep a b raw free p q' counted m stored in
          let found = (store_borrow-cases a raw free q' stored).0 in ground (arith, found)
    ]
