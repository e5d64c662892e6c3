-- ===== src/Bankroll.antt =====
-- The settings of the bankroll and the execution profile that they select: bankroll_repo.py of
-- src/data/repositories, src/bankroll/execution_context.py and protected_execution_profile of
-- src/profiles/loader.py.
pub mod Settings
pub mod Context
pub mod Months
pub mod Goal
