-- ===== src/Math/Tick.antt =====
-- `TickMath` (`crates/library/src/math/tick.rs`): the ratio 1.0015 ^ tick, scaled by 2 ^ 48, and back.
use fluid_solana_programs.Base.{
  ℕ, ◌+◌, ◌*◌, ◌/◌, ◌%◌, leb, ltb, ◌==◌, if◌then◌else◌, Bool, ◌||◌, List, [], ◌∷◌,
}
use fluid_solana_programs.Base.Int.{ℤ, pos, negsuc, nat_abs, is_neg}
use fluid_solana_programs.Base.Errors.{
  library, library_tick_out_of_bounds, library_tick_ratio_out_of_bounds,
  library_tick_invalid_perfect_ratio, panic,
}
use fluid_solana_programs.Base.Result.{Result, ok, err, ◌>>=◌, ◌>>◌, fail_if}
use fluid_solana_programs.Math.Words.{u128_max}
use fluid_solana_programs.Math.U256.{mul_u256, try_into_u128}
use fluid_solana_programs.Math.U256.Shift.{shift_right}
use fluid_solana_programs.Math.U256.MulDiv.{safe_multiply_divide}

abbrev pub max_abs_tick : ℕ
max_abs_tick = 16383

abbrev pub tick_spacing : ℕ
tick_spacing = 10015

abbrev pub min_ratio_x48 : ℕ
min_ratio_x48 = 6093

abbrev pub max_ratio_x48 : ℕ
max_ratio_x48 = 13002088133096036565414295

abbrev pub zero_tick_scaled_ratio : ℕ
zero_tick_scaled_ratio = 0x1000000000000

abbrev pub shift : ℕ
shift = 48

abbrev ten_13 : ℕ
ten_13 = 10000000000000

-- `FACTOR00` and `FACTOR01`.
abbrev pub factor_00 : ℕ
factor_00 = 0x10000000000000000

abbrev factor_01 : ℕ
factor_01 = 0xff9dd7de423466c2

-- `FACTOR02` to `FACTOR14`, for the bits 1 to 13 of the tick.
abbrev factors : List ℕ
factors =
    0xff3bd55f4488ad27 ∷ 0xfe78410fd6498b74 ∷ 0xfcf2d9987c9be179 ∷ 0xf9ef02c4529258b0
    ∷ 0xf402d288133a85a1 ∷ 0xe895615b5beb6386 ∷ 0xd34f17a00ffa00a8 ∷ 0xae6b7961714e2055
    ∷ 0x76d6461f27082d75 ∷ 0x372a3bfe0745d8b7 ∷ 0xbe32cbee4897976 ∷ 0x8d4f70c9ff4925
    ∷ 0x4e009ae55194 ∷ []

unfoldable pub mul_shift_64 : ℕ → ℕ → Result ℕ
unfolding mul_u256 shift_right try_into_u128
mul_shift_64 n0 n1 = try_into_u128 (shift_right (mul_u256 n0 n1) 64)

-- The `if abs_tick & mask != 0` one after the other, with the mask doubled each time.
unfoldable pub apply_factors : ℕ → ℕ → List ℕ → ℕ → Result ℕ
unfolding mul_shift_64
apply_factors abs_tick mask [] factor = ok factor
apply_factors abs_tick mask (next ∷ rest) factor = do
  applied ← if abs_tick / mask % 2 == 1 then mul_shift_64 factor next else ok factor
  apply_factors abs_tick (2 * mask) rest applied

-- `(factor >> 16) + precision`, after the reciprocal where the tick is not negative; a division by 0
-- panics.
unfoldable pub ratio_of_factor : Bool → ℕ → Result ℕ
ratio_of_factor negative factor =
    if negative
    then ok (factor / 65536)
    else if factor == 0
    then err panic
    else ok (u128_max / factor / 65536 + (if u128_max / factor % 65536 == 0 then 0 else 1))

unfoldable pub get_ratio_at_tick : ℤ → Result ℕ
unfolding apply_factors
get_ratio_at_tick tick = do
  fail_if (ltb max_abs_tick (nat_abs tick)) (library library_tick_out_of_bounds)
  let abs_tick = nat_abs tick
  factor ← apply_factors abs_tick 2 factors (if abs_tick % 2 == 1 then factor_01 else factor_00)
  ratio_of_factor (is_neg tick) factor

-- The thresholds of the binary search, for the bits 13 to 0 of the tick.
abbrev thresholds : List ℕ
thresholds =
    2150859953785115391 ∷ 4637736467054931 ∷ 215354044936586 ∷ 46406254420777 ∷ 21542110950596
    ∷ 14677230989051 ∷ 12114962232319 ∷ 11006798913544 ∷ 10491329235871 ∷ 10242718992470
    ∷ 10120631893548 ∷ 10060135135051 ∷ 10030022500000 ∷ 10015000000000 ∷ []

-- The `if factor >= threshold` one after the other. The bits of the tick are disjoint, so `|=` adds.
unfoldable pub search_tick : List ℕ → ℕ → ℕ → ℕ → Result (ℕ × ℕ)
search_tick [] bit tick factor = ok (tick, factor)
search_tick (threshold ∷ rest) bit tick factor =
    if leb threshold factor
    then (do
      divided ← safe_multiply_divide factor ten_13 threshold
      search_tick rest (bit / 2) (tick + bit) divided)
    else search_tick rest (bit / 2) tick factor

unfoldable pub get_tick_at_ratio : ℕ → Result (ℤ × ℕ)
unfolding search_tick
get_tick_at_ratio ratio_x48 = do
  fail_if (ltb ratio_x48 min_ratio_x48 || ltb max_ratio_x48 ratio_x48)
      (library library_tick_ratio_out_of_bounds)
  let is_negative = ltb ratio_x48 zero_tick_scaled_ratio
  factor ←
      if is_negative
      then safe_multiply_divide zero_tick_scaled_ratio ten_13 ratio_x48
      else safe_multiply_divide ratio_x48 ten_13 zero_tick_scaled_ratio
  (tick, left) ← search_tick thresholds 0x2000 0 factor
  perfect_ratio_x48 ←
      if is_negative
      then safe_multiply_divide ratio_x48 left 10015000000000
      else safe_multiply_divide ratio_x48 ten_13 left
  fail_if (ltb ratio_x48 perfect_ratio_x48) (library library_tick_invalid_perfect_ratio)
  ok (if is_negative then negsuc tick else pos tick, perfect_ratio_x48)
