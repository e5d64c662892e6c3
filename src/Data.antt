-- ===== src/Data.antt =====
-- The trades table behind src/data/repositories/trade_repo.py.
pub mod Trades
pub mod Ledger
pub mod Refinement
