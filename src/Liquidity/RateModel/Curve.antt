-- ===== src/Liquidity/RateModel/Curve.antt =====
-- The curves that `set_rate_v1` and `set_rate_v2` accept: `calc_borrow_rate_from_utilization` returns
-- a rate on them for every utilization that `TokenReserve` can store.
use fluid_solana_programs.Base.{ℕ, ◌+◌, ◌-◌, ◌*◌, ◌/◌, ◌^◌, ◌≤◌, ◌<◌, ◌≡◌, ◌∙◌, arith, ◌⊎◌}
use native.Mathlib.Decide.{dec_le}
use Prim.Native.Nat.{min}
use fluid_solana_programs.Base.Result.{ok}
use fluid_solana_programs.Liquidity.RateModel.{
  RateModel, RateDataV1Params, RateDataV2Params, set_rate_v1, set_rate_v2, get_rate, calc_rate_v1,
  calc_rate_v2, calc_rate, calc_borrow_rate_from_utilization,
}
use fluid_solana_programs.Liquidity.RateModel.Line.{
  slope, InRange, falling_drop, get_rate_rising, get_rate_falling,
}

-- A curve with one kink, as `set_rate_v1` leaves it.
pub record IsV1 (m : RateModel) : Type 0 where
  pub version : m.version ≡ 1
  pub kink_pos : 0 < m.kink1_utilization
  pub kink_lt : m.kink1_utilization < 10000
  pub rising : m.rate_at_kink1 ≤ m.rate_at_max
  pub zero_le : m.rate_at_zero ≤ 65535
  pub max_le : m.rate_at_max ≤ 65535

-- A curve with two kinks, as `set_rate_v2` leaves it.
pub record IsV2 (m : RateModel) : Type 0 where
  pub version : m.version ≡ 2
  pub kink1_pos : 0 < m.kink1_utilization
  pub kinks_lt : m.kink1_utilization < m.kink2_utilization
  pub kink2_lt : m.kink2_utilization < 10000
  pub rising : m.rate_at_kink2 ≤ m.rate_at_max
  pub zero_le : m.rate_at_zero ≤ 65535
  pub kink1_le : m.rate_at_kink1 ≤ 65535
  pub max_le : m.rate_at_max ≤ 65535

-- A curve that `set_rate_v1` stores is well formed: the kink is between 0% and 100%, the rate at 100%
-- is not below the rate at the kink, and the rates fit 16 bits.
pub set_rate_v1-IsV1 :
    (d : RateDataV1Params) (m : RateModel) {n : RateModel} → set_rate_v1 d m ≡ ok n → IsV1 n
unfolding set_rate_v1
set_rate_v1-IsV1 d m h = ground arith

-- A curve that `set_rate_v2` stores is well formed: the kinks are in order between 0% and 100%, the
-- rate at 100% is not below the rate at the second kink, and the rates fit 16 bits.
pub set_rate_v2-IsV2 :
    (d : RateDataV2Params) (m : RateModel) {n : RateModel} → set_rate_v2 d m ≡ ok n → IsV2 n
unfolding set_rate_v2
set_rate_v2-IsV2 d m h = ground arith

-- `r` lies between two rates, in either order.
abbrev pub Between : ℕ → ℕ → ℕ → Type 0
Between y1 y2 r = ((y1 ≤ r) ⊎ (y2 ≤ r)) × ((r ≤ y1) ⊎ (r ≤ y2))

-- Inside a segment the call returns a rate between those at the ends of the segment.
segment_from :
    (y1 y2 x1 x2 d : ℕ)
    → InRange y1 y2 x1 x2 (x1 + d)
    → x1 + d ≤ x2
    → (r : ℕ) × (get_rate y1 y2 x1 x2 (x1 + d) ≡ ok r) × Between y1 y2 r
segment_from y1 y2 x1 x2 d r inside = elim (dec_le y1 y2) [
  | yes up ↦ (
    y1 + slope (y2 - y1) (x2 - x1) * d / 10 ^ 12,
    get_rate_rising y1 y2 x1 x2 d r up,
    omega (arith, falling_drop (y2 - y1) (x2 - x1) d (omega arith) (omega arith)),
  )
  | no down ↦ (
    (y1 * 10 ^ 12 - slope (y1 - y2) (x2 - x1) * d) / 10 ^ 12,
    get_rate_falling y1 y2 x1 x2 d r inside (omega arith),
    omega (arith, falling_drop (y1 - y2) (x2 - x1) d (omega arith) (omega arith)),
  )
]

pub segment :
    (y1 y2 x1 x2 u : ℕ)
    → InRange y1 y2 x1 x2 u
    → u ≤ x2
    → (r : ℕ) × (get_rate y1 y2 x1 x2 u ≡ ok r) × Between y1 y2 r
segment y1 y2 x1 x2 u r inside =
    let e : x1 + (u - x1) ≡ u = omega arith in
    rw e at (segment_from y1 y2 x1 x2 (u - x1) (omega arith) (omega arith))

-- On a rising segment the call returns beyond the end too.
pub rising_segment :
    (y1 y2 x1 x2 u : ℕ)
    → InRange y1 y2 x1 x2 u
    → y1 ≤ y2
    → get_rate y1 y2 x1 x2 u ≡ ok (y1 + slope (y2 - y1) (x2 - x1) * (u - x1) / 10 ^ 12)
rising_segment y1 y2 x1 x2 u r up =
    let e : x1 + (u - x1) ≡ u = omega arith in
    rw e at (get_rate_rising y1 y2 x1 x2 (u - x1) (omega arith) up)

-- The cap: whatever rate the curve gives, at most 65535 is returned.
pub capped :
    (m : RateModel) (u r : ℕ)
    → calc_rate m u ≡ ok r
    → calc_borrow_rate_from_utilization m u ≡ ok (min r 65535)
unfolding calc_borrow_rate_from_utilization
capped m u r e = rw e (ground arith)

module _ (m : RateModel) (u : ℕ) where
  pub calc_rate-v1 : IsV1 m → calc_rate m u ≡ calc_rate_v1 m u
  calc_rate-v1 v = ground (arith, v.version)

  pub calc_rate-v2 : IsV2 m → calc_rate m u ≡ calc_rate_v2 m u
  calc_rate-v2 v = ground (arith, v.version)

  pub v1_low :
      u < m.kink1_utilization
      → calc_rate_v1 m u ≡ get_rate m.rate_at_zero m.rate_at_kink1 0 m.kink1_utilization u
  unfolding calc_rate_v1
  v1_low l = ground arith

  pub v1_high :
      m.kink1_utilization ≤ u
      → calc_rate_v1 m u ≡ get_rate m.rate_at_kink1 m.rate_at_max m.kink1_utilization 10000 u
  unfolding calc_rate_v1
  v1_high l = ground arith

  pub v2_low :
      u < m.kink1_utilization
      → calc_rate_v2 m u ≡ get_rate m.rate_at_zero m.rate_at_kink1 0 m.kink1_utilization u
  unfolding calc_rate_v2
  v2_low l = ground arith

  pub v2_mid :
      m.kink1_utilization ≤ u
      → u < m.kink2_utilization
      → calc_rate_v2 m u
        ≡ get_rate m.rate_at_kink1 m.rate_at_kink2 m.kink1_utilization m.kink2_utilization u
  unfolding calc_rate_v2
  v2_mid l k = ground arith

  pub v2_high :
      IsV2 m
      → m.kink2_utilization ≤ u
      → calc_rate_v2 m u ≡ get_rate m.rate_at_kink2 m.rate_at_max m.kink2_utilization 10000 u
  unfolding calc_rate_v2
  v2_high v l = ground arith

-- The call returns a rate of 16 bits between two configured rates.
abbrev pub Found : RateModel → ℕ → ℕ → ℕ → Type 0
Found m u y1 y2 =
    (r : ℕ) × (calc_borrow_rate_from_utilization m u ≡ ok r) × (r ≤ 65535) × Between y1 y2 r

-- The call returns a rate of 16 bits that is not below a configured rate.
abbrev pub FoundAbove : RateModel → ℕ → ℕ → Type 0
FoundAbove m u y = (r : ℕ) × (calc_borrow_rate_from_utilization m u ≡ ok r) × (r ≤ 65535) × (y ≤ r)

pub found :
    (m : RateModel) (u y1 y2 x1 x2 : ℕ)
    → calc_rate m u ≡ get_rate y1 y2 x1 x2 u
    → InRange y1 y2 x1 x2 u
    → u ≤ x2
    → Found m u y1 y2
found m u y1 y2 x1 x2 same r inside =
    let (q, e, between) = segment y1 y2 x1 x2 u r inside in
    (min q 65535, capped m u q (same ∙ e), omega arith, omega arith)

pub found_above :
    (m : RateModel) (u y1 y2 x1 x2 : ℕ)
    → calc_rate m u ≡ get_rate y1 y2 x1 x2 u
    → InRange y1 y2 x1 x2 u
    → y1 ≤ y2
    → FoundAbove m u y1
found_above m u y1 y2 x1 x2 same r up =
    let q : ℕ = y1 + slope (y2 - y1) (x2 - x1) * (u - x1) / 10 ^ 12 in
    let e : get_rate y1 y2 x1 x2 u ≡ ok q = rising_segment y1 y2 x1 x2 u r up in
    (min q 65535, capped m u q (same ∙ e), omega arith, omega arith)
