-- ===== src/Vaults/Constants.antt =====
-- `programs/vaults/src/constants.rs`.
use fluid_solana_programs.Base.{ℕ, ◌+◌, ◌-◌, ◌*◌, ◌^◌}

abbrev pub exchange_price_scale_factor : ℕ
exchange_price_scale_factor = 10 ^ 18

abbrev pub max_token_decimals : ℕ
max_token_decimals = 9

abbrev pub seconds_per_year : ℕ
seconds_per_year = 31536000

abbrev pub four_decimals : ℕ
four_decimals = 10000

abbrev pub x30 : ℕ
x30 = 0x3FFFFFFF

abbrev pub lower_decimals_operate : ℕ
lower_decimals_operate = 4

abbrev pub min_debt : ℕ
min_debt = 1000

abbrev pub min_debt_lower_decimals : ℕ
min_debt_lower_decimals = 10

abbrev pub minimum_branch_debt : ℕ
minimum_branch_debt = 100

abbrev pub minimum_branch_debt_lower_decimals : ℕ
minimum_branch_debt_lower_decimals = 5

abbrev pub minimum_tick_debt : ℕ
minimum_tick_debt = 100

abbrev pub minimum_tick_debt_lower_decimals : ℕ
minimum_tick_debt_lower_decimals = 5

abbrev pub billion : ℕ
billion = 10 ^ 9

abbrev pub three_decimals : ℕ
three_decimals = 1000

-- `(X35 << 15) | (1 << 14)`
abbrev pub initial_branch_debt_factor : ℕ
initial_branch_debt_factor = 0x7ffffffff * 2 ^ 15 + 2 ^ 14

abbrev pub min_operate : ℕ
min_operate = 1000

-- `i64::MAX`
abbrev pub max_operate : ℕ
max_operate = 2 ^ 63 - 1

abbrev pub min_operate_lower_decimals_amount : ℕ
min_operate_lower_decimals_amount = 10

abbrev pub max_liquidation_rounding_diff : ℕ
max_liquidation_rounding_diff = 100

-- `10u128.pow(RATE_OUTPUT_DECIMALS)`, the constant of `programs/oracle/src/constants.rs`.
abbrev pub rate_output : ℕ
rate_output = 10 ^ 15
