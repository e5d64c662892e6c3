-- ===== src/Otc/Stake.antt =====
-- The stake and the limits of a day from the reference balance (src/otc/stake.py).
pub mod Defs
pub mod Bounds
unfoldable pub use Defs.*
