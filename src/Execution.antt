-- ===== src/Execution.antt =====
-- The approval and the size of a Binance trade, its execution, and the watch over open positions:
-- src/execution/gate.py, risk_manager.py, risk_policy.py, trade_executor.py and position_monitor.py.
pub mod Risk
pub mod Gate
pub mod Monitor
pub mod Trader
