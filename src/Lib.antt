-- ===== src/Lib.antt =====
-- The core of the Fluid programs for Solana, modelled from the Rust sources: the arithmetic that the
-- programs share, the liquidity layer, the one pool that the other protocols supply to and borrow
-- from, the vaults, which lend against collateral, with the rounds of their liquidations, the share
-- accounting of lending, and the flashloans.
--
-- Parts and files:
-- - Base: shared names, tests, signed integers, error codes and the result of a fallible call. A failed
--   instruction is rolled back by the runtime, so an error carries no state. `overflow-checks = true`
--   in `Cargo.toml` makes an overflow of a plain operator the error `panic`.
-- - Math: `crates/library/src/math`. `Math.Casting` is `Cast::cast` of `casting.rs`; `Math.SafeMath`
--   and `Math.Signed` are `SafeMath` and `CheckedCeilDiv` of `safe_math.rs` and `ceil_div.rs` on
--   unsigned and signed types, with the greatest value of the type as first argument; `Math.U256` and
--   its children are the 256-bit product and quotient of `u256.rs`; `Math.Tick` is `TickMath` of
--   `tick.rs`, the fixed steps of its two functions as folds over the lists of their constants; and
--   `Math.Bn` is `bn.rs`, the big numbers of the debt factors.
-- - Liquidity: `programs/liquidity/src`. `Liquidity.RateModel` is `state/rate_model.rs`,
--   `Liquidity.SupplyPosition` and `Liquidity.BorrowPosition` are `state/user_supply_position.rs` and
--   `state/user_borrow_position.rs`, `Liquidity.TokenReserve` and its children are
--   `state/token_reserve.rs`, `Liquidity.Claim` is `utils/token.rs` with `UserClaim` of
--   `state/state.rs`, and `Liquidity.User` is `module/user.rs`, with `collect_revenue` of
--   `module/admin.rs`. `Liquidity.Admin` is `update_user_borrow_config` of `module/admin.rs`, and
--   `Liquidity.Admin.Token` its updates of rate data, token configuration and withdrawal limit.
-- - Vaults: `programs/vaults/src`. `Vaults.TickHasDebt` and its children are `state/tick_has_debt.rs`,
--   `Vaults.TickIdLiquidation`, `Vaults.Tick`, `Vaults.Branch`, `Vaults.VaultState` and
--   `Vaults.Position` are the files of those names in `state`, and `Vaults.Common` is
--   `utils/common.rs`. `Vaults.TickSet` is the abstract view of the bitmap, a set of places of ticks
--   with its greatest member below a place, and its children relate the code to it.
--   `Vaults.CurrentLiquidity` is the struct of that name of `state/structs.rs`; `Vaults.Liquidation` is
--   `BranchMemoryVars` of that file and `utils/liquidate.rs`, and `Vaults.Liquidation.Loop` is the body
--   of the loop of `liquidate` in `module/user.rs`, with the code around it in
--   `Vaults.Liquidation.Entry`; `Vaults.Liquidation.Paid` joins them. `Vaults.Operate` is
--   `utils/operate.rs`, with `add_debt_to_tick` in `Vaults.Operate.AddDebt`, and
--   `Vaults.Operate.Latest` is `fetch_latest_position` of `state/structs.rs`.
-- - Lending: `programs/lending/src`, with `Lending.Rewards` of
--   `programs/lendingRewardRateModel/src/state/state.rs`. `Lending.Price` and `Lending.Shares` are
--   `utils/helpers.rs`, `utils/deposit.rs` and `utils/withdraw.rs`.
-- - Flashloan: `programs/flashloan/src`. `Flashloan` is `state/state.rs`, `Flashloan.Validate` is
--   `validate.rs`, `Flashloan.Instructions` is the two loan instructions of `lib.rs`, and
--   `Flashloan.Transaction` its instructions together. `Flashloan.Execute` is a list of instructions
--   that the runtime executes in order; those of other programs may call the flashloan program.
--
-- `operate` of the liquidity layer is the instruction that joins its parts: it checks the amounts and
-- the tokens that came in, brings the exchange prices to the present, moves the positions and the
-- totals of the token, stores the new utilization and borrow rate, and pays out. Each of these is a
-- function from the accounts to the accounts or an error, and `operate` runs them in the order of the
-- source.
--
-- Numbers are native naturals with the bound of their type in every checked call; signed amounts are
-- integers with the bounds of i128. Keys of accounts are numbers, since they are only compared; the
-- default key is 0. `Clock::get()?.unix_timestamp` is the argument `now`. The token program is not
-- part of the repository: `transfer balance amount` gives what is left of the vault, and where a
-- theorem needs it, it has the hypothesis that a transfer which returns takes exactly the amount off
-- its source, as a transfer to another account does.
--
-- The vaults and lending read the exchange prices of the liquidity layer: `load_exchange_prices` of a
-- vault runs `calculate_exchange_prices` on the two token reserves. What a deposit of lending gets from
-- its call of `operate` is an argument. `set_top_tick` of a vault runs on the bitmap and the branches;
-- the accounts of an instruction are a function from their key, and a missing one is an error. A round
-- of a liquidation runs on all of these: it searches the bitmap for the next tick, takes the debt of a
-- tick or branch, and lowers the factor of the branch, a big number. The rates that the oracle program
-- returns are arguments. The calls of the flashloan program into the liquidity and token programs, the
-- decoding of an instruction and what other programs do are fields of records that are parameters.
--
-- Loops: the searches of the bitmap are structural recursions on the array, the map and the byte.
-- The loop of `liquidate` is its round, and `Vaults.Liquidation.Invariant` relates the states that a
-- sequence of rounds joins, so that it has no fuel. The search for the branch that a user's debt is in
-- runs on fuel, one for each branch visited, so that the number of branches is enough where no branch
-- leads back to itself. The search for a payback runs on the list of the later instructions.
-- The division loop of `u256.rs` adjusts its estimate of a digit with a fuel of 3, and running
-- out would be the error `panic`; the estimate is at most 2 too high, and the runs in
-- `Math.U256.Tests` divide by two words. A divisor of one word does not use that loop.
--
-- Not modelled: Anchor's constraints on accounts and its dispatch, the loading of remaining accounts,
-- events, the instructions of `programs/liquidity/src/module/admin.rs` that neither `Liquidity.Admin`
-- nor `Liquidity.User` names, of `programs/vaults/src/module/user.rs` `absorb` and `rebalance`, the
-- part of `operate` around the functions named above, and of `liquidate` the loading of prices and
-- accounts before the amounts and the calls of other programs at its end; the administration of vaults
-- and lending, the calls and transfers of lending, the reading of the instruction sysvar, and the
-- program oracle.
pub mod Base
pub mod Math
pub mod Liquidity
pub mod Vaults
pub mod Lending
pub mod Flashloan
