-- ===== src/Backtest.antt =====
-- backtest_engine/backtest_engine: the simulation of the trading robot on historical candles.
pub mod Specs
pub mod Risk
pub mod Direction
pub mod Fills
pub mod Management
pub mod EarlyExit
pub mod Trade
pub mod Signal
pub mod Outcome
pub mod Account
pub mod Candidates
pub mod Portfolio
pub mod Tests
