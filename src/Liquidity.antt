-- ===== src/Liquidity.antt =====
-- `programs/liquidity`: the liquidity layer.
pub mod Constants
pub mod RateModel
pub mod Clock
pub mod SupplyPosition
pub mod BorrowPosition
pub mod TokenReserve
pub mod Claim
pub mod User
pub mod Admin
