-- ===== src/Math/Casting.antt =====
-- `Cast::cast` (`crates/library/src/math/casting.rs`): `try_into`, with an error where the value does
-- not fit. The first argument is the greatest value of the target type. A cast to a wider type
-- cannot fail, and the callers leave it out.
use fluid_solana_programs.Base.{ℕ, ◌≤◌, ◌≡◌, arith, leb, if◌then◌else◌}
use fluid_solana_programs.Base.Int.{ℤ, pos, negsuc}
use fluid_solana_programs.Base.Errors.{library, library_casting_failure}
use fluid_solana_programs.Base.Result.{Result, ok, err}

-- From an unsigned to a narrower unsigned type.
unfoldable pub cast : ℕ → ℕ → Result ℕ
cast bound n = if leb n bound then ok n else err (library library_casting_failure)

-- From a signed to an unsigned type.
unfoldable pub cast_to_unsigned : ℕ → ℤ → Result ℕ
cast_to_unsigned bound (pos n) = if leb n bound then ok n else err (library library_casting_failure)
cast_to_unsigned bound (negsuc n) = err (library library_casting_failure)

-- From an unsigned to a signed type.
unfoldable pub cast_to_signed : ℕ → ℕ → Result ℤ
cast_to_signed bound n = if leb n bound then ok (pos n) else err (library library_casting_failure)

pub cast-eq-ok : (bound n : ℕ) {m : ℕ} → cast bound n ≡ ok m → (m ≡ n) × (n ≤ bound)
unfolding cast
cast-eq-ok bound n h = ground arith

pub cast-le : (bound n : ℕ) → n ≤ bound → cast bound n ≡ ok n
unfolding cast
cast-le bound n h = ground arith

pub cast_to_unsigned-eq-ok :
    (bound : ℕ) (a : ℤ) {m : ℕ} → cast_to_unsigned bound a ≡ ok m → (a ≡ pos m) × (m ≤ bound)
unfolding cast_to_unsigned
cast_to_unsigned-eq-ok bound (pos n) h = ground arith
cast_to_unsigned-eq-ok bound (negsuc n) h = cc

pub cast_to_signed-eq-ok :
    (bound n : ℕ) {a : ℤ} → cast_to_signed bound n ≡ ok a → (a ≡ pos n) × (n ≤ bound)
unfolding cast_to_signed
cast_to_signed-eq-ok bound n h = ground arith
