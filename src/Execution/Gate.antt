-- ===== src/Execution/Gate.antt =====
-- src/execution/gate.py.
pub mod Defs
pub mod Approval
pub use Defs.*
pub use Approval.*
