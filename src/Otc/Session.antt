-- ===== src/Otc/Session.antt =====
-- The snapshot of the day (src/otc/daily_session.py) and its table
-- (src/data/repositories/otc_daily_session_repo.py).
pub mod Defs
pub mod Snapshot
unfoldable pub use Defs.*
