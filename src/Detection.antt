-- ===== src/Detection.antt =====
-- The DIVAP scanner: src/detection, src/indicators/patterns.py, volume.py and the level search of
-- fibonacci.py. The RSI comes from a library.
pub mod Patterns
pub mod Levels
pub mod Divergence
pub mod Scanner
pub mod Targets
pub mod Soundness
pub mod Wide
pub mod Evidence
