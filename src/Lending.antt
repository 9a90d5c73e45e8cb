-- ===== src/Lending.antt =====
-- `programs/lending`: the fToken, a share in what is supplied to the liquidity layer, whose price grows
-- with the price of the layer and with rewards; with the rewards of `programs/lendingRewardRateModel`.
pub mod Rewards
pub mod Price
pub mod Shares
mod Tests
