-- ===== src/Liquidity/Constants.antt =====
-- `programs/liquidity/src/constants.rs`.
use fluid_solana_programs.Base.{ℕ, ◌-◌, ◌*◌, ◌^◌}

-- Keys of accounts are only compared, so they are numbers; `Pubkey::default()` is 0.
abbrev pub Pubkey : Type 0
Pubkey = ℕ

abbrev pub default_pubkey : Pubkey
default_pubkey = 0

abbrev pub exchange_prices_precision : ℕ
exchange_prices_precision = 10 ^ 12

abbrev pub min_operate_amount : ℕ
min_operate_amount = 10

-- `i64::MAX`
abbrev pub max_operate : ℕ
max_operate = 2 ^ 63 - 1

abbrev pub seconds_per_year : ℕ
seconds_per_year = 365 * 24 * 60 * 60

abbrev pub max_token_amount_cap : ℕ
max_token_amount_cap = 2 ^ 60 - 1

abbrev pub max_input_amount_excess : ℕ
max_input_amount_excess = 100

abbrev pub four_decimals : ℕ
four_decimals = 10 ^ 4

abbrev pub twelve_decimals : ℕ
twelve_decimals = 10 ^ 12

abbrev pub x14 : ℕ
x14 = 0x3fff

abbrev pub x24 : ℕ
x24 = 0xffffff
