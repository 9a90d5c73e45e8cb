-- ===== src/Liquidity/User/Operate.antt =====
-- What `operate` guarantees (`programs/liquidity/src/module/user.rs`).
use fluid_solana_programs.Base.{
  ℕ, suc, ◌+◌, ◌*◌, ◌≤◌, ◌<◌, ◌≡◌, ◌≢◌, sym, ◌∙◌, arith, ◌⊎◌, inl, inr, some, ◌/◌,
}
use fluid_solana_programs.Base.Int.{ℤ, pos, negsuc, pos_part, neg_part}
use fluid_solana_programs.Base.Result.{Result, ok, Ensures, >>=-eq-ok}
use fluid_solana_programs.Math.Casting.{cast, cast_to_unsigned}
use fluid_solana_programs.Liquidity.Constants.{Pubkey, default_pubkey, four_decimals}
use fluid_solana_programs.Liquidity.Clock.{timestamp}
use fluid_solana_programs.Liquidity.SupplyPosition.{UserSupplyPosition}
use fluid_solana_programs.Liquidity.BorrowPosition.{UserBorrowPosition}
use fluid_solana_programs.Liquidity.TokenReserve.Prices.{calculate_exchange_prices}
use fluid_solana_programs.Liquidity.TokenReserve.Growth.{
  prices_grow, IsAccrued, borrow_price-IsAccrued,
}
use fluid_solana_programs.Liquidity.TokenReserve.Totals.{
  scaled_supply, scaled_borrow, calc_utilization_floor,
}
use fluid_solana_programs.Liquidity.TokenReserve.Utilization.{calc_utilization}
use fluid_solana_programs.Liquidity.Claim.{Accounts, TransferType}
use fluid_solana_programs.Liquidity.User.{
  pre_operate, check_amounts, operate_amount_in, check_deposit, supply_step, borrow_step,
  update_rates, pay_out, returned_prices, operate,
}
use fluid_solana_programs.Liquidity.User.Payout.{IsCovered, pay_out-Paid}
use fluid_solana_programs.Liquidity.User.Steps.{
  operate_amount_in-eq-ok, Deposited, check_deposit-eq-ok, supply_step-Kept, borrow_step-Kept,
  supply_step-same, borrow_step-same, update_rates-eq-ok, update_rates-same,
}
use fluid_solana_programs.Liquidity.User.SupplyTotals
use fluid_solana_programs.Liquidity.User.BorrowTotals

-- The calls of an `operate` that returns.
pub record Stages (transfer : ℕ → ℕ → Result ℕ) (now s b : ℤ) (withdraw_to borrow_to : Pubkey)
    (kind : TransferType) (a : Accounts) (supply_price borrow_price : ℕ) (c : Accounts)
    : Type 0 where
  pub amount_in : ℕ
  pub sp : ℕ
  pub bp : ℕ
  pub supplied : Accounts
  pub borrowed : Accounts
  pub updated : Accounts
  pub paid : Accounts
  pub checked : check_amounts s b withdraw_to borrow_to ≡ ok tt
  pub incoming : operate_amount_in s b ≡ ok amount_in
  pub deposited : check_deposit now amount_in a ≡ ok tt
  pub priced : calculate_exchange_prices now a.token_reserve ≡ ok (sp, bp)
  pub supplying : supply_step now s sp a ≡ ok supplied
  pub borrowing : borrow_step now b bp supplied ≡ ok borrowed
  pub updating : update_rates now s b sp bp borrowed ≡ ok updated
  pub paying : pay_out transfer kind s b withdraw_to borrow_to updated ≡ ok paid
  pub same_supply_price : supply_price ≡ sp
  pub same_borrow_price : borrow_price ≡ bp
  pub same_accounts : c ≡ paid

abbrev Stored : Accounts → Accounts → ℤ → ℤ → ℕ → ℕ → Type 0
Stored x c s b sp bp =
    (calc_utilization x.token_reserve sp bp (some s) (some b) ≡ ok c.token_reserve.last_utilization)
    × ((pos_part b ≡ 0) ⊎ (c.token_reserve.last_utilization ≤ x.token_reserve.max_utilization))
    × (c.token_reserve.supply_exchange_price ≡ sp)
    × (c.token_reserve.borrow_exchange_price ≡ bp)
    × (c.token_reserve.interacting_protocol ≡ default_pubkey)
    × (c.token_reserve.total_supply_with_interest ≡ x.token_reserve.total_supply_with_interest)
    × (c.token_reserve.total_supply_interest_free ≡ x.token_reserve.total_supply_interest_free)
    × (c.token_reserve.total_borrow_with_interest ≡ x.token_reserve.total_borrow_with_interest)
    × (c.token_reserve.total_borrow_interest_free ≡ x.token_reserve.total_borrow_interest_free)
    × (c.token_reserve.max_utilization ≡ x.token_reserve.max_utilization)

last_casts :
    (sp bp : ℕ) (paid : Accounts) {s b : ℕ} {c : Accounts}
    → returned_prices sp bp paid ≡ ok (s, b, c)
    → (s ≡ sp) × (b ≡ bp) × (c ≡ paid)
unfolding returned_prices cast
last_casts sp bp paid h = ground arith

-- A deposit of `n` into the vault, from a `pre_operate` of `before` at `then` to an `operate` of `a` at `now`.
abbrev pub IsFunded : ℤ → ℤ → ℕ → Accounts → Accounts → Type 0
IsFunded then now n before a =
    (a.protocol ≡ before.protocol)
    × (now ≡ then)
    × (before.vault_balance + n ≤ a.vault_balance)
    × (a.vault_balance ≤ before.vault_balance + n * 10100 / four_decimals)

pre_operate-eq-ok :
    (then : ℤ) (before : Accounts) {opened : Accounts}
    → pre_operate then before ≡ ok opened
    → (then ≡ pos opened.token_reserve.interacting_timestamp)
      × (opened.token_reserve.interacting_protocol ≡ before.protocol)
      × (opened.token_reserve.interacting_balance ≡ before.vault_balance)
unfolding pre_operate timestamp cast_to_unsigned
pre_operate-eq-ok (pos t) before h = ground arith
pre_operate-eq-ok (negsuc t) before h = ground arith

module _ (transfer : ℕ → ℕ → Result ℕ) (now s b : ℤ) (withdraw_to borrow_to : Pubkey)
    (kind : TransferType) (a : Accounts) {supply_price borrow_price : ℕ} {c : Accounts} where
  pub operate-eq-ok :
      operate transfer now s b withdraw_to borrow_to kind a ≡ ok (supply_price, borrow_price, c)
      → Stages transfer now s b withdraw_to borrow_to kind a supply_price borrow_price c
  unfolding operate
  operate-eq-ok h =
      let (_, checked, h1) = >>=-eq-ok (check_amounts s b withdraw_to borrow_to) _ h in
      let (amount_in, incoming, h2) = >>=-eq-ok (operate_amount_in s b) _ h1 in
      let (_, deposited, h3) = >>=-eq-ok (check_deposit now amount_in a) _ h2 in
      let ((sp, bp), priced, h4) = >>=-eq-ok (calculate_exchange_prices now a.token_reserve) _ h3 in
      let (supplied, supplying, h5) = >>=-eq-ok (supply_step now s sp a) _ h4 in
      let (borrowed, borrowing, h6) = >>=-eq-ok (borrow_step now b bp supplied) _ h5 in
      let (updated, updating, h7) = >>=-eq-ok (update_rates now s b sp bp borrowed) _ h6 in
      let (paid, paying, h8) =
        >>=-eq-ok (pay_out transfer kind s b withdraw_to borrow_to updated) _ h7 in
      let (same_s, same_b, same_c) = last_casts sp bp paid h8 in
      record {
        amount_in = amount_in;
        supplied = supplied;
        borrowed = borrowed;
        updated = updated;
        checked = checked;
        incoming = incoming;
        deposited = deposited;
        priced = priced;
        supplying = supplying;
        borrowing = borrowing;
        updating = updating;
        paying = paying;
        sp = sp;
        bp = bp;
        paid = paid;
        same_supply_price = same_s;
        same_borrow_price = same_b;
        same_accounts = same_c;
      }

  -- What the check of a deposit or a payback found in the reserve.
  pub operate-Deposited :
      operate transfer now s b withdraw_to borrow_to kind a ≡ ok (supply_price, borrow_price, c)
      → (pos_part s + neg_part b ≡ 0) ⊎ Deposited now (pos_part s + neg_part b) a
  operate-Deposited h =
      let r = operate-eq-ok h in
      let e = operate_amount_in-eq-ok s b r.incoming in
      rw⁻¹ e (check_deposit-eq-ok now r.amount_in a r.deposited)

  -- After a `pre_operate`, and with the reserve as it left it: where `operate` takes a deposit or a
  -- payback, it is of the protocol and at the time of that `pre_operate`, and the vault has the amount,
  -- and at most 1% more, in addition to its balance at the time of that `pre_operate`.
  pub operate-Funded :
      (then : ℤ) (before : Accounts) {opened : Accounts}
      → pre_operate then before ≡ ok opened
      → a.token_reserve ≡ opened.token_reserve
      → operate transfer now s b withdraw_to borrow_to kind a ≡ ok (supply_price, borrow_price, c)
      → (pos_part s + neg_part b ≡ 0) ⊎ IsFunded then now (pos_part s + neg_part b) before a
  operate-Funded then before opens same h =
      let stored = pre_operate-eq-ok then before opens in
      elim (operate-Deposited h) [
        | inl nothing ↦ inl nothing
        | inr found ↦ inr (ground (arith, found, stored, same))
      ]

module _ (transfer : ℕ → ℕ → Result ℕ)
    (takes : (balance amount : ℕ)
      → Ensures (λ left. left + amount ≡ balance) (transfer balance amount))
    (now s b : ℤ) (withdraw_to borrow_to : Pubkey) (kind : TransferType) (a : Accounts)
    {supply_price borrow_price : ℕ} {c : Accounts} where
  -- The reserve at the end, next to the one before the rates are stored.
  stored :
      (r : Stages transfer now s b withdraw_to borrow_to kind a supply_price borrow_price c)
      → Stored r.borrowed c s b supply_price borrow_price
  stored r =
      let paid = pay_out-Paid transfer takes kind s b withdraw_to borrow_to r.updated r.paying in
      let rates = update_rates-eq-ok now s b r.sp r.bp r.borrowed r.updating in
      let same = update_rates-same now s b r.sp r.bp r.borrowed r.updating in
      rw (r.same_accounts, r.same_supply_price, r.same_borrow_price) (ground arith)

  positions :
      (r : Stages transfer now s b withdraw_to borrow_to kind a supply_price borrow_price c)
      → (c.user_supply_position ≡ r.borrowed.user_supply_position)
        × (c.user_borrow_position ≡ r.borrowed.user_borrow_position)
  positions r =
      let paid = pay_out-Paid transfer takes kind s b withdraw_to borrow_to r.updated r.paying in
      let same = update_rates-same now s b r.sp r.bp r.borrowed r.updating in
      rw r.same_accounts (paid.2.0 ∙ same.1, paid.2.1 ∙ same.2)

  -- Where a transfer takes exactly its amount off its source: The utilization that `operate`
  -- stores is the part of the new supply that is borrowed at the returned prices in 1e-4,
  -- rounded down, or 0 where nothing is supplied. Where it lends, that is not above the maximum.
  pub operate_utilization :
      operate transfer now s b withdraw_to borrow_to kind a ≡ ok (supply_price, borrow_price, c)
      → (((scaled_supply c.token_reserve supply_price ≡ 0) × (c.token_reserve.last_utilization ≡ 0))
          ⊎ ((c.token_reserve.last_utilization * scaled_supply c.token_reserve supply_price
                ≤ scaled_borrow c.token_reserve borrow_price * four_decimals)
              × (scaled_borrow c.token_reserve borrow_price * four_decimals
                  < suc c.token_reserve.last_utilization
                    * scaled_supply c.token_reserve supply_price)))
        × ((pos_part b ≡ 0) ⊎ (c.token_reserve.last_utilization ≤ c.token_reserve.max_utilization))
  operate_utilization h =
      let r = operate-eq-ok transfer now s b withdraw_to borrow_to kind a h in
      let (found, most, _, _, _, e1, e2, e3, e4, e5) = stored r in
      (
        rw (e1, e2, e3, e4)
            (calc_utilization_floor r.borrowed.token_reserve supply_price borrow_price _ _ found),
        rw e5 most,
      )

  -- Where a transfer takes exactly its amount off its source: `operate` stores and returns the same
  -- prices. The time is not before the last update, and the borrow price has grown by the interest of
  -- the time since then at the stored rate per year in 1e-4, rounded up, or it is the stored one and
  -- no debt with interest is stored. The supply price is not lowered.
  pub operate_prices_grow :
      operate transfer now s b withdraw_to borrow_to kind a ≡ ok (supply_price, borrow_price, c)
      → (c.token_reserve.supply_exchange_price ≡ supply_price)
        × (c.token_reserve.borrow_exchange_price ≡ borrow_price)
        × (a.token_reserve.supply_exchange_price ≤ supply_price)
        × IsAccrued now a.token_reserve borrow_price
  operate_prices_grow h =
      let r = operate-eq-ok transfer now s b withdraw_to borrow_to kind a h in
      let same_supply = r.same_supply_price in
      let same_borrow = r.same_borrow_price in
      let grown = prices_grow now a.token_reserve r.priced in
      (
        (stored r).2,
        (stored r).3,
        omega arith,
        rw same_borrow (borrow_price-IsAccrued now a.token_reserve r.priced),
      )

  -- A reserve that `operate` leaves belongs to no protocol until the next `pre_operate`.
  pub operate_resets :
      operate transfer now s b withdraw_to borrow_to kind a ≡ ok (supply_price, borrow_price, c)
      → c.token_reserve.interacting_protocol ≡ default_pubkey
  operate_resets h = (stored (operate-eq-ok transfer now s b withdraw_to borrow_to kind a h)).4

  -- Where a transfer takes exactly its amount off its source: after an `operate`, a deposit or a
  -- payback that has no `pre_operate` of its own does not succeed, whichever protocol asks, the
  -- default key excepted.
  pub second_deposit_refused :
      (later s' b' : ℤ) (withdraw_to' borrow_to' : Pubkey) (kind' : TransferType) (d : Accounts)
      {sp bp : ℕ} {e : Accounts}
      → operate transfer now s b withdraw_to borrow_to kind a ≡ ok (supply_price, borrow_price, c)
      → d.token_reserve ≡ c.token_reserve
      → d.protocol ≢ default_pubkey
      → 0 < pos_part s' + neg_part b'
      → ¬ (operate transfer later s' b' withdraw_to' borrow_to' kind' d ≡ ok (sp, bp, e))
  second_deposit_refused later s' b' withdraw_to' borrow_to' kind' d h same known incoming again =
      ground (
        arith,
        operate_resets h,
        operate-Deposited transfer later s' b' withdraw_to' borrow_to' kind' d again,
      )

  -- Where a transfer takes exactly its amount off its source: What `operate` withdraws and
  -- borrows leaves the vault, or it is added to the claims; no more and no less. Then the claims
  -- are covered by the vault, or neither has moved.
  pub operate_pays :
      operate transfer now s b withdraw_to borrow_to kind a ≡ ok (supply_price, borrow_price, c)
      → (a.vault_balance + c.token_reserve.total_claim_amount
          ≡ c.vault_balance + a.token_reserve.total_claim_amount + (neg_part s + pos_part b))
        × (IsCovered c
            ⊎ ((c.vault_balance ≡ a.vault_balance)
                × (c.token_reserve.total_claim_amount ≡ a.token_reserve.total_claim_amount)))
  operate_pays h =
      let r = operate-eq-ok transfer now s b withdraw_to borrow_to kind a h in
      let paid = pay_out-Paid transfer takes kind s b withdraw_to borrow_to r.updated r.paying in
      let same = update_rates-same now s b r.sp r.bp r.borrowed r.updating in
      let kept_supply = supply_step-Kept now s r.sp a r.supplying in
      let kept_borrow = borrow_step-Kept now b r.bp r.supplied r.borrowing in
      rw r.same_accounts (ground arith)

  -- Where a transfer takes exactly its amount off its source: Where the total of the token
  -- counts a supply position, `operate` moves both by the same amount, and it leaves the total
  -- of the other interest mode.
  pub operate_supply-InStep :
      (p q : UserSupplyPosition)
      → a.user_supply_position ≡ some p
      → c.user_supply_position ≡ some q
      → p.amount ≤ SupplyTotals.total_of p.with_interest a.token_reserve
      → operate transfer now s b withdraw_to borrow_to kind a ≡ ok (supply_price, borrow_price, c)
      → SupplyTotals.InStep p q a.token_reserve c.token_reserve
  operate_supply-InStep p q e f counted h =
      let r = operate-eq-ok transfer now s b withdraw_to borrow_to kind a h in
      let position = positions r in
      let kept = borrow_step-same now b r.bp r.supplied r.borrowing in
      let end = stored r in
      let moved =
        SupplyTotals.supply_step-InStep now s r.sp a r.supplied p q e
          (sym kept.0 ∙ sym position.0 ∙ f) counted r.supplying in
      ground arith

  -- Where a transfer takes exactly its amount off its source: Where the total of the token
  -- counts a borrow position, `operate` moves both by the same amount, and it leaves the total
  -- of the other interest mode.
  pub operate_borrow-InStep :
      (p q : UserBorrowPosition)
      → a.user_borrow_position ≡ some p
      → c.user_borrow_position ≡ some q
      → p.amount ≤ BorrowTotals.total_of p.with_interest a.token_reserve
      → operate transfer now s b withdraw_to borrow_to kind a ≡ ok (supply_price, borrow_price, c)
      → BorrowTotals.InStep p q a.token_reserve c.token_reserve
  operate_borrow-InStep p q e f counted h =
      let r = operate-eq-ok transfer now s b withdraw_to borrow_to kind a h in
      let position = positions r in
      let kept = supply_step-same now s r.sp a r.supplying in
      let end = stored r in
      let still_counted : p.amount
          ≤ BorrowTotals.total_of p.with_interest r.supplied.token_reserve =
        ground arith in
      let moved =
        BorrowTotals.borrow_step-InStep now b r.bp r.supplied r.borrowed p q (kept.0 ∙ e)
          (sym position.1 ∙ f) still_counted r.borrowing in
      ground arith
