-- ===== src/Execution/Monitor.antt =====
-- src/execution/position_monitor.py.
pub mod Steps
pub mod Results
pub mod Closing
pub mod Partial
pub mod Sync
pub mod Frame
pub mod Watch
pub mod Closes
pub mod Closed
