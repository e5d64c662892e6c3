-- ===== src/Profiles/ExitPolicy.antt =====
-- Take-profit levels, partial exits and the time stop (src/profiles/exit_policy.py), with the swing points
-- and extensions of src/indicators/fibonacci.py that they use.
pub mod Fibonacci
mod Defs
pub mod Partials
unfoldable pub use Fibonacci.*
unfoldable pub use Defs.*
