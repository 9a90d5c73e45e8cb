-- ===== src/Liquidity/RateModel/Rates.antt =====
-- What `calc_borrow_rate_from_utilization` returns on the curves that `set_rate_v1` and `set_rate_v2`
-- store (`programs/liquidity/src/state/rate_model.rs`).
use fluid_solana_programs.Base.{
  ℕ, ◌+◌, ◌-◌, ◌*◌, ◌/◌, ◌^◌, ◌≤◌, ◌<◌, ◌≡◌, ◌∙◌, arith, ◌⊎◌, inl, inr,
}
use native.Mathlib.Decide.{dec_le}
use Prim.Native.Nat.{min}
use native.Mathlib.Nat.{mul-le-mul_left}
use fluid_solana_programs.Base.Result.{ok}
use fluid_solana_programs.Liquidity.RateModel.{
  RateModel, get_rate, calc_rate, calc_borrow_rate_from_utilization,
}
use fluid_solana_programs.Liquidity.RateModel.Line.{slope, InRange}
use fluid_solana_programs.Liquidity.RateModel.Curve.{
  IsV1, IsV2, Found, FoundAbove, found, found_above, rising_segment, capped, calc_rate-v1,
  calc_rate-v2, v1_low, v1_high, v2_low, v2_mid, v2_high,
}

-- On a curve with one kink a rate is found for every utilization of 16 bits: up to 100% it lies
-- between the configured rates at the ends of its segment, and above 100% it is not below the rate
-- at the kink.
pub v1_rate :
    (m : RateModel) (u : ℕ)
    → IsV1 m
    → u ≤ 65535
    → ((u < m.kink1_utilization) × Found m u m.rate_at_zero m.rate_at_kink1)
      ⊎ ((m.kink1_utilization ≤ u) × (u ≤ 10000) × Found m u m.rate_at_kink1 m.rate_at_max)
      ⊎ ((10000 < u) × FoundAbove m u m.rate_at_kink1)
v1_rate m u v l = elim (dec_le m.kink1_utilization u) [
  | no low ↦ inl (
    omega arith,
    found m u _ _ 0 m.kink1_utilization (calc_rate-v1 m u v ∙ v1_low m u (omega arith))
        (omega arith) (omega arith),
  )
  | yes high ↦ elim (dec_le u 10000) [
    | yes inside ↦ inr (
        inl (
          high,
          inside,
          found m u _ _ m.kink1_utilization 10000 (calc_rate-v1 m u v ∙ v1_high m u high)
              (omega arith) inside,
        ))
    | no outside ↦ inr (
        inr (
          omega arith,
          found_above m u _ _ m.kink1_utilization 10000 (calc_rate-v1 m u v ∙ v1_high m u high)
              (omega arith) v.rising,
        ))
  ]
]

-- On a curve with two kinks a rate is found for every utilization of 16 bits: up to 100% it lies
-- between the configured rates at the ends of its segment, and above 100% it is not below the rate
-- at the second kink.
pub v2_rate :
    (m : RateModel) (u : ℕ)
    → IsV2 m
    → u ≤ 65535
    → ((u < m.kink1_utilization) × Found m u m.rate_at_zero m.rate_at_kink1)
      ⊎ ((m.kink1_utilization ≤ u)
          × (u < m.kink2_utilization)
          × Found m u m.rate_at_kink1 m.rate_at_kink2)
      ⊎ ((m.kink2_utilization ≤ u) × (u ≤ 10000) × Found m u m.rate_at_kink2 m.rate_at_max)
      ⊎ ((10000 < u) × FoundAbove m u m.rate_at_kink2)
v2_rate m u v l = elim (dec_le m.kink1_utilization u) [
  | no low ↦ inl (
    omega arith,
    found m u _ _ 0 m.kink1_utilization (calc_rate-v2 m u v ∙ v2_low m u (omega arith))
        (omega arith) (omega arith),
  )
  | yes past1 ↦ elim (dec_le m.kink2_utilization u) [
    | no mid ↦ inr (
        inl (
          past1,
          omega arith,
          found m u _ _ m.kink1_utilization m.kink2_utilization
              (calc_rate-v2 m u v ∙ v2_mid m u past1 (omega arith)) (omega arith) (omega arith),
        ))
    | yes past2 ↦ elim (dec_le u 10000) [
      | yes inside ↦ inr (
          inr (
            inl (
              past2,
              inside,
              found m u _ _ m.kink2_utilization 10000 (calc_rate-v2 m u v ∙ v2_high m u v past2)
                  (omega arith) inside,
            )))
      | no outside ↦ inr (
          inr (
            inr (
              omega arith,
              found_above m u _ _ m.kink2_utilization 10000
                  (calc_rate-v2 m u v ∙ v2_high m u v past2) (omega arith) v.rising,
            )))
    ]
  ]
]

-- The rates at two utilizations, the first no higher than the second.
abbrev pub Ordered : RateModel → ℕ → ℕ → Type 0
Ordered m u w =
    (r s : ℕ) × (calc_borrow_rate_from_utilization m u ≡ ok r)
    × (calc_borrow_rate_from_utilization m w ≡ ok s)
    × (r ≤ s)

ordered :
    (m : RateModel) (u w y1 y2 x1 : ℕ)
    → calc_rate m u ≡ get_rate y1 y2 x1 10000 u
    → calc_rate m w ≡ get_rate y1 y2 x1 10000 w
    → InRange y1 y2 x1 10000 u
    → InRange y1 y2 x1 10000 w
    → y1 ≤ y2
    → u ≤ w
    → Ordered m u w
ordered m u w y1 y2 x1 at_u at_w ru rw up le =
    let k : ℕ = slope (y2 - y1) (10000 - x1) in
    let q : ℕ = y1 + k * (u - x1) / 10 ^ 12 in
    let t : ℕ = y1 + k * (w - x1) / 10 ^ 12 in
    let eq : get_rate y1 y2 x1 10000 u ≡ ok q = rising_segment y1 y2 x1 10000 u ru up in
    let et : get_rate y1 y2 x1 10000 w ≡ ok t = rising_segment y1 y2 x1 10000 w rw up in
    let steps : k * (u - x1) ≤ k * (w - x1) = mul-le-mul_left k (omega arith) in
    (min q 65535, min t 65535, capped m u q (at_u ∙ eq), capped m w t (at_w ∙ et), omega arith)

-- From the last kink of a curve on, the rate never falls as the utilization grows.
pub v1_steep :
    (m : RateModel) (u w : ℕ) → IsV1 m → m.kink1_utilization ≤ u → u ≤ w → w ≤ 65535 → Ordered m u w
v1_steep m u w v past le l =
    ordered m u w _ _ m.kink1_utilization (calc_rate-v1 m u v ∙ v1_high m u past)
      (calc_rate-v1 m w v ∙ v1_high m w (omega arith)) (omega arith) (omega arith) v.rising le

-- From the second kink of a curve on, the rate never falls as the utilization grows.
pub v2_steep :
    (m : RateModel) (u w : ℕ) → IsV2 m → m.kink2_utilization ≤ u → u ≤ w → w ≤ 65535 → Ordered m u w
v2_steep m u w v past le l =
    ordered m u w _ _ m.kink2_utilization (calc_rate-v2 m u v ∙ v2_high m u v past)
      (calc_rate-v2 m w v ∙ v2_high m w v (omega arith)) (omega arith) (omega arith) v.rising le
