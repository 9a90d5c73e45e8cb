-- ===== src/Vaults.antt =====
-- `programs/vaults`: the vaults, which lend against collateral on top of the liquidity layer.
pub mod TickHasDebt
pub mod TickSet
pub mod Constants
pub mod CurrentLiquidity
pub mod TickIdLiquidation
pub mod Common
pub mod Tick
pub mod Branch
pub mod VaultState
pub mod Liquidation
pub mod Operate
pub mod Position
mod Tests
