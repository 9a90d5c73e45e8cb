-- ===== src/Flashloan.antt =====
-- `programs/flashloan`: loans that are paid back in the transaction that takes them. This file is
-- `state/state.rs`, the account of the program, with `update_authority` of `lib.rs` and the constants.
pub mod Validate
pub mod Instructions
pub mod Fee
pub mod Transaction
pub mod Payback
pub mod Execute
pub mod Invoked
pub mod Balance
pub mod Paid
mod Tests
use fluid_solana_programs.Base.{ℕ, ◌+◌, ltb, ◌==◌, if◌then◌else◌, Bool, true, false, not, ◌||◌}
use fluid_solana_programs.Base.Int.{ℤ}
use fluid_solana_programs.Base.Errors.{
  flashloan, flashloan_invalid_authority, flashloan_fee_too_high, flashloan_invalid_params,
  flashloan_already_active, flashloan_already_inactive,
}
use fluid_solana_programs.Base.Result.{Result, ok, ◌>>=◌, ◌>>◌, fail_if}
use fluid_solana_programs.Math.Words.{u64_max, u128_max}
use fluid_solana_programs.Math.Casting.{cast}
use fluid_solana_programs.Math.SafeMath.{safe_add, safe_mul, safe_div_ceil}
use fluid_solana_programs.Liquidity.Constants.{Pubkey, default_pubkey}
use fluid_solana_programs.Liquidity.Clock.{unsigned_timestamp}

abbrev pub min_flashloan_amount : ℕ
min_flashloan_amount = 1000

abbrev pub flashloan_fee_max : ℕ
flashloan_fee_max = 50

abbrev pub flashloan_stack_height : ℕ
flashloan_stack_height = 1

abbrev pub four_decimals : ℕ
four_decimals = 10000

pub record FlashloanAdmin : Type 0 where
  pub authority : Pubkey
  pub liquidity_program : Pubkey
  pub status : Bool
  pub flashloan_fee : ℕ
  pub flashloan_timestamp : ℕ
  pub is_flashloan_active : Bool
  pub active_flashloan_amount : ℕ
  pub bump : ℕ

-- `liquidity_program_id` is the id that the liquidity program is declared with.
unfoldable pub init : Pubkey → Pubkey → ℕ → Pubkey → ℕ → FlashloanAdmin → Result FlashloanAdmin
init liquidity_program_id authority fee liquidity_program bump a = do
  fail_if (ltb flashloan_fee_max fee) (flashloan flashloan_fee_too_high)
  fail_if (liquidity_program == default_pubkey || authority == default_pubkey)
      (flashloan flashloan_invalid_params)
  fail_if (not (liquidity_program == liquidity_program_id)) (flashloan flashloan_invalid_params)
  ok (record a {
    status = true;
    authority = authority;
    flashloan_fee = fee;
    liquidity_program = liquidity_program;
    bump = bump;
  })

-- The caller must be the authority, and the new authority the governance.
unfoldable pub update_authority : Pubkey → Pubkey → Pubkey → FlashloanAdmin → Result FlashloanAdmin
update_authority governance_ms signer new_authority a = do
  fail_if (not (signer == a.authority)) (flashloan flashloan_invalid_authority)
  fail_if (not (new_authority == governance_ms)) (flashloan flashloan_invalid_params)
  ok (record a { authority = new_authority })

unfoldable pub pause_protocol : FlashloanAdmin → Result FlashloanAdmin
pause_protocol a = do
  fail_if (not a.status) (flashloan flashloan_invalid_params)
  ok (record a { status = false })

unfoldable pub activate_protocol : FlashloanAdmin → Result FlashloanAdmin
activate_protocol a = do
  fail_if a.status (flashloan flashloan_invalid_params)
  ok (record a { status = true })

abbrev pub is_paused : FlashloanAdmin → Bool
is_paused a = not a.status

unfoldable pub set_flashloan_fee : ℕ → FlashloanAdmin → Result FlashloanAdmin
set_flashloan_fee fee a = do
  fail_if (ltb flashloan_fee_max fee) (flashloan flashloan_fee_too_high)
  ok (record a { flashloan_fee = fee })

unfoldable pub set_flashloan_as_active : ℤ → ℕ → FlashloanAdmin → Result FlashloanAdmin
unfolding unsigned_timestamp
set_flashloan_as_active now amount a = do
  fail_if a.is_flashloan_active (flashloan flashloan_already_active)
  ok (record a {
    flashloan_timestamp = unsigned_timestamp now;
    is_flashloan_active = true;
    active_flashloan_amount = amount;
  })

unfoldable pub set_flashloan_as_inactive : FlashloanAdmin → Result FlashloanAdmin
set_flashloan_as_inactive a = do
  fail_if (not a.is_flashloan_active) (flashloan flashloan_already_inactive)
  ok (record a { is_flashloan_active = false; active_flashloan_amount = 0 })

unfoldable pub calculate_flashloan_fee : ℕ → FlashloanAdmin → Result ℕ
calculate_flashloan_fee amount a = do
  scaled ← safe_mul u128_max amount a.flashloan_fee
  fee ← safe_div_ceil u128_max scaled four_decimals
  cast u64_max fee

unfoldable pub get_expected_payback_amount : ℕ → FlashloanAdmin → Result ℕ
unfolding calculate_flashloan_fee
get_expected_payback_amount amount a = do
  fee ← calculate_flashloan_fee amount a
  safe_add u64_max amount fee
