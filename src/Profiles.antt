-- ===== src/Profiles.antt =====
-- The trading profiles: exit rules (src/profiles/exit_policy.py) and the contrarian rule
-- (src/profiles/contrarian.py).
pub mod Models
pub mod ExitPolicy
pub mod Contrarian
