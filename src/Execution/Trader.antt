-- ===== src/Execution/Trader.antt =====
-- src/execution/trade_executor.py.
pub mod Steps
pub mod Ports
pub mod Orders
pub mod Execute
pub mod Booked
pub mod Admitted
pub mod Outcomes
pub mod Protected
pub mod Sizes
pub mod Entry
