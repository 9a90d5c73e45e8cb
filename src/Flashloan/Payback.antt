-- ===== src/Flashloan/Payback.antt =====
-- What the search of `programs/flashloan/src/validate.rs` finds: exactly one of the later instructions is
-- for the program, and it is the payback.
use fluid_solana_programs.Base.{
  ℕ, ◌≡◌, refl, arith, ◌==◌, if◌then◌else◌, Bool, true, false, not, List, [], ◌∷◌, Bool-cases, inl,
  inr,
}
use fluid_solana_programs.Base.Errors.{
  flashloan, flashloan_multiple_paybacks_found, flashloan_payback_not_found,
}
use fluid_solana_programs.Base.Result.{ok, err, fail_if, >>=-eq-ok, run_if, run_else}
use fluid_solana_programs.Liquidity.Constants.{Pubkey}
use fluid_solana_programs.Flashloan.Validate.{
  Instruction, is_flashloan_payback_instruction, visit, find_payback,
  validate_payback_instruction_exists,
}

-- The instructions for a program.
unfoldable pub own : Pubkey → List Instruction → List Instruction
own program_id [] = []
own program_id (ix ∷ later) =
    let rest = own program_id later in if ix.program_id == program_id then ix ∷ rest else rest

-- The only instruction of a list is the payback.
abbrev pub IsOnlyPayback : List Pubkey → ℕ → List Instruction → Type 0
IsOnlyPayback accounts amount l =
    (ix : Instruction) × (l ≡ ix ∷ [])
    × (is_flashloan_payback_instruction accounts amount ix ≡ true)

abbrev Found : List Pubkey → ℕ → List Instruction → Bool → Type 0
Found accounts amount l true = IsOnlyPayback accounts amount l
Found accounts amount l false = l ≡ []

module _ (program_id : Pubkey) (accounts : List Pubkey) (amount : ℕ) where
  pub own-here :
      (ix : Instruction) (later : List Instruction)
      → (ix.program_id == program_id) ≡ true
      → own program_id (ix ∷ later) ≡ ix ∷ own program_id later
  unfolding own
  own-here ix later e = rw e refl

  pub own-skip :
      (ix : Instruction) (later : List Instruction)
      → (ix.program_id == program_id) ≡ false
      → own program_id (ix ∷ later) ≡ own program_id later
  unfolding own
  own-skip ix later e = rw e refl

  first_payback :
      (ix : Instruction) (rest l : List Instruction) (before : Bool) {after : Bool}
      → is_flashloan_payback_instruction accounts amount ix ≡ true
      → l ≡ ix ∷ rest
      → Found accounts amount rest before
      → (if before then err (flashloan flashloan_multiple_paybacks_found) else ok true) ≡ ok after
      → Found accounts amount l after
  first_payback ix rest l true pays at found run = absurd (ground (arith, run))
  first_payback ix rest l false {after} pays at found run =
      let is_true : true ≡ after = cc in
      let alone : l ≡ ix ∷ [] = rw found at at in rw (← is_true) (ix, alone, pays)

  same_found :
      (l l' : List Instruction) (before : Bool) {after : Bool}
      → l' ≡ l
      → Found accounts amount l before
      → ok before ≡ ok after
      → Found accounts amount l' after
  same_found l l' before {after} same found run =
      let is_same : before ≡ after = cc in rw (← is_same, same) found

  visit-Found :
      (ix : Instruction) (later : List Instruction) (before : Bool) {after : Bool}
      → Found accounts amount (own program_id later) before
      → visit program_id accounts amount ix before ≡ ok after
      → Found accounts amount (own program_id (ix ∷ later)) after
  unfolding visit
  visit-Found ix later before found run = elim (Bool-cases (ix.program_id == program_id)) [
    | inl mine ↦ elim (Bool-cases (is_flashloan_payback_instruction accounts amount ix)) [
      | inl pays ↦
          first_payback ix (own program_id later) (own program_id (ix ∷ later)) before pays
            (own-here ix later mine) found
            (run_if (is_flashloan_payback_instruction accounts amount ix) _ _ pays
              (run_else (not (ix.program_id == program_id)) _ _ (rw mine refl) run))
      | inr strange ↦ absurd (ground (arith, mine, strange, run))
    ]
    | inr foreign ↦
        same_found (own program_id later) (own program_id (ix ∷ later)) before
          (own-skip ix later foreign) found
          (run_if (not (ix.program_id == program_id)) _ _ (rw foreign refl) run)
  ]

  find_payback-Found :
      (later : List Instruction) {found : Bool}
      → find_payback program_id accounts amount later ≡ ok found
      → Found accounts amount (own program_id later) found
  unfolding find_payback own
  find_payback-Found [] {found} run = let is_false : false ≡ found = cc in rw (← is_false) refl
  find_payback-Found (ix ∷ later) run =
      let (before, run_before, last) =
        >>=-eq-ok (find_payback program_id accounts amount later) _ run in
      visit-Found ix later before (find_payback-Found later run_before) last

  only_found :
      (l : List Instruction) (found : Bool)
      → Found accounts amount l found
      → fail_if (not found) (flashloan flashloan_payback_not_found) ≡ ok tt
      → IsOnlyPayback accounts amount l
  only_found l true f run = f
  only_found l false f run = absurd (ground (arith, run))

  -- Where the validation of a loan succeeds, exactly one of the later instructions is for the flashloan
  -- program, and it is the payback: it has the accounts of the loan, the discriminator of
  -- `flashloan_payback` and the amount of the loan.
  pub validate_payback_instruction_exists-IsOnlyPayback :
      (later : List Instruction)
      → validate_payback_instruction_exists program_id accounts amount later ≡ ok tt
      → IsOnlyPayback accounts amount (own program_id later)
  unfolding validate_payback_instruction_exists
  validate_payback_instruction_exists-IsOnlyPayback later run =
      let (found, run_find, last) =
        >>=-eq-ok (find_payback program_id accounts amount later) _ run in
      only_found (own program_id later) found (find_payback-Found later run_find) last
