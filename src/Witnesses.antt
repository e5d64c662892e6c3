-- ===== src/Witnesses.antt =====
-- The theorems at concrete inputs.
mod Samples
mod Sequences
mod Days
mod Trading
mod Cycles
mod Positions
mod Clock
mod Orders
mod Waits
mod Channel
mod Scans
mod Plans
