-- ===== src/Liquidity/Clock.antt =====
-- The uses of `Clock::get()?.unix_timestamp`, an i64 that the runtime gives: the argument `now`.
use fluid_solana_programs.Base.{ℕ, ◌+◌, ◌-◌, ◌≤◌, ◌≡◌, arith}
use fluid_solana_programs.Base.Int.{ℤ, pos, negsuc}
use fluid_solana_programs.Base.Result.{Result, ok, ◌>>=◌}
use fluid_solana_programs.Math.Words.{i64_max, u64_max, u128_max}
use fluid_solana_programs.Math.Casting.{cast_to_signed, cast_to_unsigned, cast_to_unsigned-eq-ok}
use fluid_solana_programs.Math.Signed

-- `Clock::get()?.unix_timestamp.cast()?` into a u64.
unfoldable pub timestamp : ℤ → Result ℕ
timestamp now = cast_to_unsigned u64_max now

-- `unix_timestamp as u64`, which wraps a negative one.
unfoldable pub unsigned_timestamp : ℤ → ℕ
unsigned_timestamp (pos n) = n
unsigned_timestamp (negsuc n) = u64_max - n

-- `unix_timestamp.safe_sub(last_update.cast()?)?.cast()?`
unfoldable pub time_since : ℤ → ℕ → Result ℕ
unfolding cast_to_signed cast_to_unsigned Signed.safe_sub
time_since now last = do
  before ← cast_to_signed i64_max last
  elapsed ← Signed.safe_sub i64_max now before
  cast_to_unsigned u128_max elapsed

pub timestamp-eq-ok : (now : ℤ) {t : ℕ} → timestamp now ≡ ok t → (now ≡ pos t) × (t ≤ u64_max)
unfolding timestamp
timestamp-eq-ok now h = cast_to_unsigned-eq-ok u64_max now h

pub time_since-eq-ok :
    (now : ℤ) (last : ℕ) {t : ℕ} → time_since now last ≡ ok t → now ≡ pos (last + t)
unfolding time_since
time_since-eq-ok now last h = ground arith
