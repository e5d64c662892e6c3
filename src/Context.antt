-- ===== src/Context.antt =====
-- The rule-based score of the market context (src/context/scoring.py).
pub mod Scoring
pub mod Verdicts
unfoldable pub use Scoring.*
