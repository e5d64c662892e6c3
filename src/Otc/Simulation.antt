-- ===== src/Otc/Simulation.antt =====
-- src/otc/simulation.py.
pub mod Cycles
pub mod Grouping
pub mod Shape
pub mod Strategies
pub mod Summary
pub mod Totality
pub mod Counting
pub use Cycles.*
pub use Grouping.*
pub use Shape.*
pub use Strategies.*
pub use Summary.*
pub use Totality.*
pub use Counting.*
