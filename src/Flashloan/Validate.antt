-- ===== src/Flashloan/Validate.antt =====
-- `programs/flashloan/src/validate.rs`: a loan is given only where a later instruction of the
-- transaction pays it back. The instructions of the transaction, which the runtime keeps in an account,
-- are a list, with the later ones as a list of their own; the keys of the accounts are the ones of the
-- `Flashloan` context.
use fluid_solana_programs.Base.{
  ℕ, zero, suc, ◌+◌, ◌*◌, ◌^◌, ltb, ◌==◌, if◌then◌else◌, Bool, true, false, not, ◌&&◌, List, [],
  ◌∷◌,
}
use fluid_solana_programs.Base.Errors.{
  flashloan, flashloan_invalid_params, flashloan_payback_not_found, flashloan_invalid_instruction,
  flashloan_cpi_call_not_allowed, flashloan_multiple_paybacks_found,
}
use fluid_solana_programs.Base.Result.{Result, ok, err, ◌>>=◌, ◌>>◌, fail_if}
use fluid_solana_programs.Liquidity.Constants.{Pubkey}
use fluid_solana_programs.Flashloan.{min_flashloan_amount, flashloan_stack_height}

-- An instruction: the program, the keys of its accounts, and its bytes.
pub record Instruction : Type 0 where
  pub program_id : Pubkey
  pub accounts : List Pubkey
  pub bytes : List ℕ

unfoldable pub length {ℓ} : {A : Type ℓ} → List A → ℕ
length [] = 0
length (x ∷ xs) = suc (length xs)

unfoldable pub equal : List ℕ → List ℕ → Bool
equal [] [] = true
equal (x ∷ xs) [] = false
equal [] (y ∷ ys) = false
equal (x ∷ xs) (y ∷ ys) = x == y && equal xs ys

unfoldable pub take : ℕ → List ℕ → List ℕ
take zero xs = []
take (suc n) [] = []
take (suc n) (x ∷ xs) = x ∷ take n xs

unfoldable pub drop : ℕ → List ℕ → List ℕ
drop zero xs = xs
drop (suc n) [] = []
drop (suc n) (x ∷ xs) = drop n xs

-- `u64::from_le_bytes`
unfoldable pub from_le_bytes : List ℕ → ℕ
from_le_bytes [] = 0
from_le_bytes (byte ∷ rest) = byte + 2 ^ 8 * from_le_bytes rest

abbrev pub flashloan_payback_discriminator : List ℕ
flashloan_payback_discriminator = 213 ∷ 47 ∷ 153 ∷ 137 ∷ 84 ∷ 243 ∷ 94 ∷ 232 ∷ []

-- A payback of `amount` by its bytes: the discriminator and eight bytes of the amount.
unfoldable pub pays_back : ℕ → List ℕ → Bool
unfolding length equal take drop from_le_bytes
pays_back amount bytes =
    length bytes == 16
    && (equal (take 8 bytes) flashloan_payback_discriminator
        && from_le_bytes (drop 8 bytes) == amount)

-- `is_flashloan_payback_instruction`; no branch of it returns an error.
unfoldable pub is_flashloan_payback_instruction : List Pubkey → ℕ → Instruction → Bool
unfolding pays_back equal
is_flashloan_payback_instruction accounts expected_amount ix =
    equal ix.accounts accounts && pays_back expected_amount ix.bytes

-- One round of the loop of `validate_payback_instruction_exists`.
unfoldable pub visit : Pubkey → List Pubkey → ℕ → Instruction → Bool → Result Bool
unfolding is_flashloan_payback_instruction
visit program_id accounts borrow_amount ix payback_found =
    if not (ix.program_id == program_id)
    then ok payback_found
    else if is_flashloan_payback_instruction accounts borrow_amount ix
    then if payback_found then err (flashloan flashloan_multiple_paybacks_found) else ok true
    else err (flashloan flashloan_invalid_instruction)

-- The loop runs from the last instruction to the first.
unfoldable pub find_payback : Pubkey → List Pubkey → ℕ → List Instruction → Result Bool
find_payback program_id accounts borrow_amount [] = ok false
find_payback program_id accounts borrow_amount (ix ∷ later) = do
  payback_found ← find_payback program_id accounts borrow_amount later
  visit program_id accounts borrow_amount ix payback_found

unfoldable pub validate_payback_instruction_exists :
    Pubkey → List Pubkey → ℕ → List Instruction → Result (Unit {0})
validate_payback_instruction_exists program_id accounts borrow_amount later = do
  payback_found ← find_payback program_id accounts borrow_amount later
  fail_if (not payback_found) (flashloan flashloan_payback_not_found)

unfoldable pub validate_flashloan :
    Pubkey → List Pubkey → ℕ → Instruction → ℕ → List Instruction → Result (Unit {0})
validate_flashloan program_id accounts stack_height current_ixs amount later = do
  fail_if (ltb amount min_flashloan_amount) (flashloan flashloan_invalid_params)
  fail_if (not (current_ixs.program_id == program_id)) (flashloan flashloan_invalid_params)
  fail_if (ltb flashloan_stack_height stack_height) (flashloan flashloan_cpi_call_not_allowed)
  validate_payback_instruction_exists program_id accounts amount later

unfoldable pub validate_flashloan_payback : ℕ → ℕ → ℕ → Result (Unit {0})
validate_flashloan_payback stack_height active_flashloan_amount amount = do
  fail_if (ltb amount min_flashloan_amount) (flashloan flashloan_invalid_params)
  fail_if (not (amount == active_flashloan_amount)) (flashloan flashloan_invalid_params)
  fail_if (ltb flashloan_stack_height stack_height) (flashloan flashloan_cpi_call_not_allowed)
