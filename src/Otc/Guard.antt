-- ===== src/Otc/Guard.antt =====
-- The daily stops of the OTC profile (src/otc/guard.py) and their alert (src/otc/stop_alert.py).
pub mod Defs
pub mod Alerts
pub mod Limits
pub mod Once
unfoldable pub use Defs.*
unfoldable pub use Alerts.*
