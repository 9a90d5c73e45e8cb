-- ===== src/Liquidity/RateModel/Tests.antt =====
-- Runs of the rate model.
use fluid_solana_programs.Base.{◌≤◌, ◌<◌, ◌≡◌, refl, ◌⊎◌, arith}
use fluid_solana_programs.Base.Result.{Result, ok, err}
use fluid_solana_programs.Liquidity.RateModel.{
  RateModel, RateDataV1Params, RateDataV2Params, set_rate_v1, set_rate_v2,
}
use fluid_solana_programs.Liquidity.RateModel.Curve.{
  IsV1, IsV2, Found, FoundAbove, set_rate_v1-IsV1, set_rate_v2-IsV2,
}
use fluid_solana_programs.Liquidity.RateModel.Rates.{v2_rate}
use fluid_solana_programs.Math.Casting.{cast}

abbrev unset : RateModel
unset = record {
  mint = 5;
  version = 0;
  rate_at_zero = 0;
  kink1_utilization = 0;
  rate_at_kink1 = 0;
  rate_at_max = 0;
  kink2_utilization = 0;
  rate_at_kink2 = 0;
}

abbrev params1 : RateDataV1Params
params1 = record {
  kink = 8000;
  rate_at_utilization_zero = 100;
  rate_at_utilization_kink = 500;
  rate_at_utilization_max = 5000;
}

abbrev params2 : RateDataV2Params
params2 = record {
  kink1 = 7000;
  kink2 = 9000;
  rate_at_utilization_zero = 300;
  rate_at_utilization_kink1 = 200;
  rate_at_utilization_kink2 = 900;
  rate_at_utilization_max = 8000;
}

abbrev or_unset : Result RateModel → RateModel
or_unset (ok m) = m
or_unset (err e) = unset

abbrev curve1 : RateModel
curve1 = or_unset (set_rate_v1 params1 unset)

abbrev curve2 : RateModel
curve2 = or_unset (set_rate_v2 params2 unset)

curve1_runs : set_rate_v1 params1 unset ≡ ok curve1
unfolding set_rate_v1 cast
curve1_runs = refl

curve2_runs : set_rate_v2 params2 unset ≡ ok curve2
unfolding set_rate_v2 cast
curve2_runs = refl

curve1-IsV1 : IsV1 curve1
curve1-IsV1 = set_rate_v1-IsV1 params1 unset curve1_runs

curve2-IsV2 : IsV2 curve2
curve2-IsV2 = set_rate_v2-IsV2 params2 unset curve2_runs

v2_rate_example :
    ((9500 < curve2.kink1_utilization) × Found curve2 9500 curve2.rate_at_zero curve2.rate_at_kink1)
    ⊎ ((curve2.kink1_utilization ≤ 9500)
        × (9500 < curve2.kink2_utilization)
        × Found curve2 9500 curve2.rate_at_kink1 curve2.rate_at_kink2)
    ⊎ ((curve2.kink2_utilization ≤ 9500)
        × (9500 ≤ 10000)
        × Found curve2 9500 curve2.rate_at_kink2 curve2.rate_at_max)
    ⊎ ((10000 < 9500) × FoundAbove curve2 9500 curve2.rate_at_kink2)
v2_rate_example = v2_rate curve2 9500 curve2-IsV2 (omega arith)

past_kink1 : curve1.kink1_utilization ≤ 9000
unfolding set_rate_v1 cast
past_kink1 = omega arith

past_kink2 : curve2.kink2_utilization ≤ 9500
unfolding set_rate_v2 cast
past_kink2 = omega arith
