-- ===== src/Math/Words.antt =====
-- The bounds of Rust's machine integers.
use fluid_solana_programs.Base.{ℕ, ◌-◌, ◌^◌}

abbrev pub u8_max : ℕ
u8_max = 2 ^ 8 - 1

abbrev pub u16_max : ℕ
u16_max = 2 ^ 16 - 1

abbrev pub u32_max : ℕ
u32_max = 2 ^ 32 - 1

abbrev pub u64_max : ℕ
u64_max = 2 ^ 64 - 1

abbrev pub u128_max : ℕ
u128_max = 2 ^ 128 - 1

abbrev pub i16_max : ℕ
i16_max = 2 ^ 15 - 1

abbrev pub i32_max : ℕ
i32_max = 2 ^ 31 - 1

abbrev pub i64_max : ℕ
i64_max = 2 ^ 63 - 1

abbrev pub i128_max : ℕ
i128_max = 2 ^ 127 - 1
