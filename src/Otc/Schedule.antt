-- ===== src/Otc/Schedule.antt =====
-- The times of the legs (src/otc/schedule.py).
pub mod Defs
pub mod Window
pub mod Clock
pub mod Waiting
pub mod Arrival
pub mod Serial
pub mod RoundTrip
