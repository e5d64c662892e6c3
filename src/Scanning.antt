-- ===== src/Scanning.antt =====
-- The schedule of the scanner: scan_plan.py and scan_state.py of src/core and the periodic pass of
-- src/alerts/scheduler.py.
pub mod Plan
pub mod Pass
pub mod Distinct
pub mod Spacing
