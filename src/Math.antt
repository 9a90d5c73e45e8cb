-- ===== src/Math.antt =====
-- `crates/library/src/math`: checked conversions, checked arithmetic, 256-bit products and quotients.
pub mod Words
pub mod Casting
pub mod SafeMath
pub mod Signed
pub mod Exact
pub mod U256
pub mod Tick
pub mod Bn
mod Tests
