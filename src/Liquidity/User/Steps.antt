-- ===== src/Liquidity/User/Steps.antt =====
-- The steps of `operate` one by one (`programs/liquidity/src/module/user.rs`).
use fluid_solana_programs.Base.{ℕ, ◌+◌, ◌*◌, ◌/◌, ◌≤◌, ◌≡◌, arith, ◌⊎◌, some}
use fluid_solana_programs.Base.Int.{ℤ, pos, negsuc, pos_part, neg_part}
use fluid_solana_programs.Base.Result.{ok}
use fluid_solana_programs.Math.Casting.{cast, cast_to_unsigned}
use fluid_solana_programs.Math.SafeMath
use fluid_solana_programs.Math.Signed
use fluid_solana_programs.Liquidity.Constants.{default_pubkey, four_decimals}
use fluid_solana_programs.Liquidity.Clock.{timestamp}
use fluid_solana_programs.Liquidity.TokenReserve.{
  set_new_total_supply_with_interest, set_new_total_supply_interest_free,
  set_new_total_borrow_with_interest, set_new_total_borrow_interest_free,
}
use fluid_solana_programs.Liquidity.TokenReserve.Utilization.{calc_utilization}
use fluid_solana_programs.Liquidity.Claim.{Accounts}
use fluid_solana_programs.Liquidity.User.{
  operate_amount_in, check_deposit, store_supply, supply_step, store_borrow, borrow_step,
  update_rates,
}

pub operate_amount_in-eq-ok :
    (s b : ℤ) {n : ℕ} → operate_amount_in s b ≡ ok n → n ≡ pos_part s + neg_part b
unfolding operate_amount_in cast_to_unsigned Signed.neg Signed.safe_add
operate_amount_in-eq-ok (pos s) (pos b) h = ground arith
operate_amount_in-eq-ok (pos s) (negsuc b) h = ground arith
operate_amount_in-eq-ok (negsuc s) (pos b) h = ground arith
operate_amount_in-eq-ok (negsuc s) (negsuc b) h = ground arith

-- The vault got the amount, and at most 1% more, since the protocol's `pre_operate` at `now`.
abbrev pub Deposited : ℤ → ℕ → Accounts → Type 0
Deposited now n a =
    (a.token_reserve.interacting_protocol ≡ a.protocol)
    × (now ≡ pos a.token_reserve.interacting_timestamp)
    × (a.token_reserve.interacting_balance + n ≤ a.vault_balance)
    × (a.vault_balance ≤ a.token_reserve.interacting_balance + n * 10100 / four_decimals)

pub check_deposit-eq-ok :
    (now : ℤ) (n : ℕ) (a : Accounts) {u : Unit {0}}
    → check_deposit now n a ≡ ok u
    → (n ≡ 0) ⊎ Deposited now n a
unfolding check_deposit timestamp cast_to_unsigned SafeMath.safe_add SafeMath.safe_sub
    SafeMath.safe_mul SafeMath.safe_div
check_deposit-eq-ok (pos t) n a h = ground arith
check_deposit-eq-ok (negsuc t) n a h = ground arith

-- What `supply_step` and `borrow_step` both leave as it is.
abbrev pub Kept : Accounts → Accounts → Type 0
Kept a b =
    (b.vault_balance ≡ a.vault_balance)
    × (b.protocol ≡ a.protocol)
    × (b.token_reserve.total_claim_amount ≡ a.token_reserve.total_claim_amount)
    × (b.token_reserve.max_utilization ≡ a.token_reserve.max_utilization)

pub supply_step-Kept :
    (now x : ℤ) (price : ℕ) (a : Accounts) {b : Accounts}
    → supply_step now x price a ≡ ok b
    → Kept a b
unfolding supply_step store_supply set_new_total_supply_with_interest
    set_new_total_supply_interest_free
supply_step-Kept now x price a h = ground arith

pub borrow_step-Kept :
    (now x : ℤ) (price : ℕ) (a : Accounts) {b : Accounts}
    → borrow_step now x price a ≡ ok b
    → Kept a b
unfolding borrow_step store_borrow set_new_total_borrow_with_interest
    set_new_total_borrow_interest_free
borrow_step-Kept now x price a h = ground arith

-- `supply_step` does not touch the borrowing side, nor `borrow_step` the supplying side.
pub supply_step-same :
    (now x : ℤ) (price : ℕ) (a : Accounts) {b : Accounts}
    → supply_step now x price a ≡ ok b
    → (b.user_borrow_position ≡ a.user_borrow_position)
      × (b.token_reserve.total_borrow_with_interest ≡ a.token_reserve.total_borrow_with_interest)
      × (b.token_reserve.total_borrow_interest_free ≡ a.token_reserve.total_borrow_interest_free)
unfolding supply_step store_supply set_new_total_supply_with_interest
    set_new_total_supply_interest_free
supply_step-same now x price a h = ground arith

pub borrow_step-same :
    (now x : ℤ) (price : ℕ) (a : Accounts) {b : Accounts}
    → borrow_step now x price a ≡ ok b
    → (b.user_supply_position ≡ a.user_supply_position)
      × (b.token_reserve.total_supply_with_interest ≡ a.token_reserve.total_supply_with_interest)
      × (b.token_reserve.total_supply_interest_free ≡ a.token_reserve.total_supply_interest_free)
unfolding borrow_step store_borrow set_new_total_borrow_with_interest
    set_new_total_borrow_interest_free
borrow_step-same now x price a h = ground arith

-- The reserve after `update_rates`.
pub update_rates-eq-ok :
    (now s b : ℤ) (sp bp : ℕ) (a : Accounts) {c : Accounts}
    → update_rates now s b sp bp a ≡ ok c
    → (calc_utilization a.token_reserve sp bp (some s) (some b)
        ≡ ok c.token_reserve.last_utilization)
      × ((pos_part b ≡ 0) ⊎ (c.token_reserve.last_utilization ≤ a.token_reserve.max_utilization))
      × (c.token_reserve.supply_exchange_price ≡ sp)
      × (c.token_reserve.borrow_exchange_price ≡ bp)
      × (c.token_reserve.interacting_protocol ≡ default_pubkey)
unfolding update_rates cast
update_rates-eq-ok now s (pos b) sp bp a h = ground arith
update_rates-eq-ok now s (negsuc b) sp bp a h = ground arith

pub update_rates-same :
    (now s b : ℤ) (sp bp : ℕ) (a : Accounts) {c : Accounts}
    → update_rates now s b sp bp a ≡ ok c
    → Kept a c
      × (c.user_supply_position ≡ a.user_supply_position)
      × (c.user_borrow_position ≡ a.user_borrow_position)
      × (c.token_reserve.total_supply_with_interest ≡ a.token_reserve.total_supply_with_interest)
      × (c.token_reserve.total_supply_interest_free ≡ a.token_reserve.total_supply_interest_free)
      × (c.token_reserve.total_borrow_with_interest ≡ a.token_reserve.total_borrow_with_interest)
      × (c.token_reserve.total_borrow_interest_free ≡ a.token_reserve.total_borrow_interest_free)
unfolding update_rates
update_rates-same now s b sp bp a h = ground arith
