-- ===== src/Otc/Martingale.antt =====
-- The protections of a sequence (src/otc/martingale.py).
pub mod Defs
pub mod Ladder
unfoldable pub use Defs.*
