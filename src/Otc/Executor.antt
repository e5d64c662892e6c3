-- ===== src/Otc/Executor.antt =====
-- The execution of a signal (src/otc/executor.py) over the broker (src/otc/broker.py).
pub mod Ports
pub mod Leg
pub mod Sequence
pub mod Legs
pub mod Gates
pub mod Totals
pub mod Outcome
unfoldable pub use Ports.*
unfoldable pub use Leg.*
unfoldable pub use Sequence.*
