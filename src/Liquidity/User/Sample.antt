-- ===== src/Liquidity/User/Sample.antt =====
-- A reserve with one protocol, for the runs.
use fluid_solana_programs.Base.{ℕ, ◌+◌, ◌-◌, ◌≡◌, leb, if◌then◌else◌, none, some, arith}
use fluid_solana_programs.Base.Errors.{external}
use fluid_solana_programs.Base.Result.{Result, ok, err, Ensures}
use fluid_solana_programs.Liquidity.RateModel.{RateModel}
use fluid_solana_programs.Liquidity.SupplyPosition.{UserSupplyPosition}
use fluid_solana_programs.Liquidity.BorrowPosition.{UserBorrowPosition}
use fluid_solana_programs.Liquidity.TokenReserve.{TokenReserve}
use fluid_solana_programs.Liquidity.Claim.{Accounts, UserClaim}

-- A token program that moves what the source holds.
abbrev pub move_out : ℕ → ℕ → Result ℕ
move_out balance amount = if leb amount balance then ok (balance - amount) else err external

pub move_out-takes :
    (balance amount : ℕ) → Ensures (λ left. left + amount ≡ balance) (move_out balance amount)
move_out-takes balance amount = ground arith

abbrev pub or_default {ℓ} : {A : Type ℓ} → A → Result A → A
or_default other (ok a) = a
or_default other (err e) = other

abbrev pub model : RateModel
model = record {
  mint = 5;
  version = 1;
  rate_at_zero = 100;
  kink1_utilization = 8000;
  rate_at_kink1 = 500;
  rate_at_max = 5000;
  kink2_utilization = 0;
  rate_at_kink2 = 0;
}

abbrev pub supplier : UserSupplyPosition
supplier = record {
  protocol = 7;
  mint = 5;
  with_interest = 1;
  amount = 1000000000;
  withdrawal_limit = 900000000;
  last_update = 1000;
  expand_pct = 2000;
  expand_duration = 86400;
  base_withdrawal_limit = 100000000;
  status = 0;
}

abbrev pub borrower : UserBorrowPosition
borrower = record {
  protocol = 7;
  mint = 5;
  with_interest = 1;
  amount = 200000000;
  debt_ceiling = 220000000;
  last_update = 1000;
  expand_pct = 2000;
  expand_duration = 86400;
  base_debt_ceiling = 100000000;
  max_debt_ceiling = 900000000;
  status = 0;
}

abbrev pub reserve : TokenReserve
reserve = record {
  mint = 5;
  vault = 6;
  borrow_rate = 400;
  fee_on_interest = 1000;
  last_utilization = 5000;
  last_update_timestamp = 1000;
  supply_exchange_price = 1010000000000;
  borrow_exchange_price = 1020000000000;
  max_utilization = 9000;
  total_supply_with_interest = 2000000000;
  total_supply_interest_free = 10000000;
  total_borrow_with_interest = 1000000000;
  total_borrow_interest_free = 5000000;
  total_claim_amount = 1000;
  interacting_protocol = 7;
  interacting_timestamp = 5000;
  interacting_balance = 1000000000;
}

abbrev pub no_claim : UserClaim
no_claim = record { user = 11; amount = 1000; mint = 5 }

abbrev pub before : Accounts
before = record {
  protocol = 7;
  mint = 5;
  token_reserve = reserve;
  rate_model = model;
  user_supply_position = some supplier;
  user_borrow_position = some borrower;
  withdraw_to_account = some 21;
  borrow_to_account = some 22;
  withdraw_claim_account = none;
  borrow_claim_account = none;
  claims = λ key. no_claim;
  vault_balance = 1001000000;
}
