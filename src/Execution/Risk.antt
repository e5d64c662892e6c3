-- ===== src/Execution/Risk.antt =====
-- The functions of src/execution/risk_manager.py and src/execution/risk_policy.py.
pub mod Defs
pub mod Bounds
pub use Defs.*
pub use Bounds.*
